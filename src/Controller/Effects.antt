-- ===== src/Controller/Effects.antt =====
-- The Kubernetes API as the controller meets it: reads and writes have answers that the environment
-- chooses, and what the controller asks for is a log of actions.
use buildkit_operator.Base.{
  ◌≡◌, refl, Bytes, List, [], ◌∷◌, ◌++◌, ◌⊎◌, inl, inr, All, map, All-append, Bool, true, false,
  if◌then◌else◌,
}

pub data Error : Type 0 where
  not_found : Error
  message : Bytes → Error

-- The answer to a `Get` or a `List`; `missing` is `apierrors.IsNotFound`.
pub data Read {ℓ} (A : Type ℓ) : Type ℓ where
  found : A → Read A
  missing : Read A
  unreadable : Error → Read A

pub Read-cases {ℓ} :
    {A : Type ℓ} (x : Read A)
    → ((a : A) × (x ≡ found a)) ⊎ (x ≡ missing) ⊎ ((e : Error) × (x ≡ unreadable e))
Read-cases (found a) = inl (a, refl)
Read-cases missing = inr (inl refl)
Read-cases (unreadable e) = inr (inr (e, refl))

-- The answer to a write; `gone` is `apierrors.IsNotFound`.
pub data Written : Type 0 where
  done gone : Written
  refused : Error → Written

pub Written-cases : (w : Written) → (w ≡ done) ⊎ (w ≡ gone) ⊎ ((e : Error) × (w ≡ refused e))
Written-cases done = inl refl
Written-cases gone = inr (inl refl)
Written-cases (refused e) = inr (inr (e, refl))

-- How a function of the controller returns.
pub data Result {ℓ} (A : Type ℓ) : Type ℓ where
  ok : A → Result A
  err : Error → Result A

pub Result-cases {ℓ} :
    {A : Type ℓ} (x : Result A) → ((a : A) × (x ≡ ok a)) ⊎ ((e : Error) × (x ≡ err e))
Result-cases (ok a) = inl (a, refl)
Result-cases (err e) = inr (e, refl)

-- What was asked of the API up to the return, and the return.
pub record Run {ℓ} (X : Type 0) (A : Type ℓ) : Type ℓ where
  pub log : List X
  pub result : Result A

module _ {ℓ} {X : Type 0} {A : Type ℓ} where
  abbrev pub return : A → Run X A
  return a = record { log = []; result = ok a }

  abbrev pub fail : Error → Run X A
  fail e = record { log = []; result = err e }

  -- A write, and what follows it by its answer: `gone` passes where the code ignores it.
  abbrev pub write : X → Written → A → Run X A
  write x done a = record { log = x ∷ []; result = ok a }
  write x gone a = record { log = x ∷ []; result = err not_found }
  write x (refused e) a = record { log = x ∷ []; result = err e }

  -- A write with `client.IgnoreNotFound` on its answer.
  abbrev pub write_ignoring_gone : X → Written → A → Run X A
  write_ignoring_gone x done a = record { log = x ∷ []; result = ok a }
  write_ignoring_gone x gone a = record { log = x ∷ []; result = ok a }
  write_ignoring_gone x (refused e) a = record { log = x ∷ []; result = err e }

  -- The error of a step that the code only logs.
  abbrev pub best_effort : Run X A → A → Run X A
  best_effort m a = elim m.result [
    | ok b ↦ record { log = m.log; result = ok b }
    | err e ↦ record { log = m.log; result = ok a }
  ]

module _ {ℓ κ} {X : Type 0} {A : Type ℓ} {B : Type κ} where
  infixl 5 ◌>>=◌
  abbrev pub ◌>>=◌ : Run X A → (A → Run X B) → Run X B
  m >>= f = elim m.result [
    | ok a ↦ record { log = m.log ++ (f a).log; result = (f a).result }
    | err e ↦ record { log = m.log; result = err e }
  ]

-- Logs of writes and of branches, by what they ask for.
module _ {ℓ} {X : Type 0} {A : Type ℓ} (P : X → Type 0) where
  pub All-if :
      (c : Bool) (m n : Run X A) → All P m.log → All P n.log → All P (if c then m else n).log
  All-if true m n hm hn = hm
  All-if false m n hm hn = hn

  pub All-write : (x : X) (w : Written) (a : A) → P x → All P (write x w a).log
  All-write x done a h = (h, tt)
  All-write x gone a h = (h, tt)
  All-write x (refused e) a h = (h, tt)

pub All-bind {ℓ κ} :
    {X : Type 0} {A : Type ℓ} {B : Type κ} (P : X → Type 0) (m : Run X A) (f : A → Run X B)
    → All P m.log
    → ((a : A) → All P (f a).log)
    → All P (m >>= f).log
All-bind P m f hm hf = elim (Result-cases m.result) [
  | inl (a, fine) ↦ rw fine (All-append P m.log (f a).log hm (hf a))
  | inr (e, failed) ↦ rw failed hm
]

pub All-write_ignoring_gone {ℓ} :
    {X : Type 0} {A : Type ℓ} (P : X → Type 0) (x : X) (w : Written) (a : A)
    → P x
    → All P (write_ignoring_gone x w a).log
All-write_ignoring_gone P x done a h = (h, tt)
All-write_ignoring_gone P x gone a h = (h, tt)
All-write_ignoring_gone P x (refused e) a h = (h, tt)

-- The actions of a part, as actions of the whole.
abbrev pub relabel {ℓ} : {X Y : Type 0} {A : Type ℓ} → (X → Y) → Run X A → Run Y A
relabel f m = record { log = map f m.log; result = m.result }

pub All-map :
    {X Y : Type 0} (P : Y → Type 0) (f : X → Y) (xs : List X)
    → All (λ x. P (f x)) xs
    → All P (map f xs)
All-map P f [] h = tt
All-map P f (x ∷ xs) h = (h.0, All-map P f xs h.1)
