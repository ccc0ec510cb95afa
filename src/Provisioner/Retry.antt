-- ===== src/Provisioner/Retry.antt =====
-- The API of Kubernetes as internal/provisioner/k8s/k8s.go meets it: how a call fails, and the attempts that
-- `retry.OnError` makes of a function.
use buildkit_operator.Base.{
  ℕ, zero, suc, ◌≡◌, refl, ◌⊎◌, inl, inr, Bool, true, false, ◌||◌, Option, none, some, List, [],
  ◌∷◌, ◌++◌, Bytes,
}

-- How a call fails: `IsConflict`, `IsNotFound`, `IsAlreadyExists`, or otherwise.
pub data Fault : Type 0 where
  conflict absent already_there : Fault
  other : Bytes → Fault

pub data Answer {ℓ} (A : Type ℓ) : Type ℓ where
  got : A → Answer A
  failed : Fault → Answer A

pub Answer-cases {ℓ} :
    {A : Type ℓ} (x : Answer A) → ((a : A) × (x ≡ got a)) ⊎ ((f : Fault) × (x ≡ failed f))
Answer-cases (got a) = inl (a, refl)
Answer-cases (failed f) = inr (f, refl)

-- `apierrors.IsConflict` and `apierrors.IsNotFound`.
abbrev pub is_conflict : Fault → Bool
is_conflict conflict = true
is_conflict absent = false
is_conflict already_there = false
is_conflict (other s) = false

abbrev pub is_not_found : Fault → Bool
is_not_found absent = true
is_not_found conflict = false
is_not_found already_there = false
is_not_found (other s) = false

-- `retriableStatusErr`.
unfoldable pub retriable_status_err : Fault → Bool
retriable_status_err f = is_conflict f || is_not_found f

-- The attempts of `statusBackoff`.
abbrev pub status_steps : ℕ
status_steps = 8

-- What an attempt leaves: the variables that it captures, what it asked of the API, and its error.
pub record Tried (S X : Type 0) : Type 0 where
  pub state : S
  pub log : List X
  pub error : Option Fault

module _ {A S X : Type 0} (body : S → A → Tried S X) where
  -- The attempts in a row, and the error of the last.
  unfoldable pub retried : S → A → List A → Tried S X
  retried s a [] = body s a
  retried s a (b ∷ bs) =
      let t = body s a in
      let u = retried t.state b bs in
      record { state = u.state; log = t.log ++ u.log; error = u.error }

  -- What `retry.OnError` promises: it goes on after an attempt exactly if its error is retriable and
  -- there are attempts left.
  abbrev pub IsRetried : (Fault → Bool) → ℕ → S → A → List A → Type 0
  IsRetried retriable zero s a as' = ⊥
  IsRetried retriable (suc n) s a [] =
      ((body s a).error ≡ none)
      ⊎ ((f : Fault) × ((body s a).error ≡ some f) × (retriable f ≡ false))
      ⊎ (n ≡ 0)
  IsRetried retriable (suc n) s a (b ∷ bs) =
      ((f : Fault) × ((body s a).error ≡ some f) × (retriable f ≡ true))
      × IsRetried retriable n (body s a).state b bs
