-- ===== src/Provisioner/Kube/Touched.antt =====
-- `touchStatus` of internal/provisioner/k8s/k8s.go: what it writes over its attempts.
use buildkit_operator.Base.{
  ℕ, zero, suc, ◌≡◌, refl, Bool, true, false, Option, none, some, List, [], ◌∷◌, ◌++◌, append_assoc,
  sym, ap, ◌∙◌, All, All-append,
}
use buildkit_operator.Api.Types.{BuildProject, BuildProjectStatus}
use buildkit_operator.Provisioner.Retry.{Fault, Answer, got, failed, Tried, retried, IsRetried}
use buildkit_operator.Provisioner.Kube.{
  Update, Attempt, Mutation, write_back, touch_attempt, touch_status,
}

-- A write that the API refused.
abbrev pub IsRefused : Update → Type 0
IsRefused u = (f : Fault) × (u.refused ≡ some f)

-- The change that is in force at the end: the status that one attempt read, changed and stamped, is
-- written by the last write of all, which is accepted, and every write before it was refused.
pub record IsApplied (mutate : Mutation) (log : List Update) : Type 0 where
  pub read : BuildProject
  pub now : ℕ
  pub changed : (mutate read.status now).1 ≡ true
  pub earlier : List Update
  pub refused : All IsRefused earlier
  pub last :
      log
      ≡ earlier
        ++ (record {
          status = record (mutate read.status now).0 { last_build_time = some now };
          refused = none;
        }
            ∷ [])

abbrev pub IsOnce : Mutation → Bool × List Update → Type 0
IsOnce mutate (true, log) = IsApplied mutate log
IsOnce mutate (false, log) = All IsRefused log

-- What one attempt leaves, by its error.
abbrev Attempted : Mutation → Option Fault → Tried Bool Update → Type 0
Attempted mutate none t = IsOnce mutate (t.state, t.log)
Attempted mutate (some f) t = All IsRefused t.log

module _ (mutate : Mutation) where
  write_back-Attempted :
      (bp : BuildProject) (current : Answer BuildProject) (now : ℕ) (updated : Option Fault)
      (r : BuildProjectStatus × Bool)
      → mutate bp.status now ≡ r
      → let a : Attempt = record { current = current; now = now; updated = updated } in
        Attempted mutate (write_back r a).error (write_back r a)
  unfolding write_back
  write_back-Attempted bp current now updated (st, false) e = tt
  write_back-Attempted bp current now none (st, true) e = record {
    read = bp;
    now = now;
    changed = ap (λ (r : BuildProjectStatus × Bool). r.1) e;
    earlier = [];
    refused = tt;
    last = rw e;
  }
  write_back-Attempted bp current now (some f) (st, true) e = ((f, refl), tt)

  touch_attempt-Attempted :
      (applied : Bool) (current : Answer BuildProject) (now : ℕ) (updated : Option Fault)
      → let a : Attempt = record { current = current; now = now; updated = updated } in
        Attempted mutate (touch_attempt mutate applied a).error (touch_attempt mutate applied a)
  unfolding touch_attempt
  touch_attempt-Attempted applied (got bp) now updated =
      write_back-Attempted bp (got bp) now updated (mutate bp.status now) refl
  touch_attempt-Attempted applied (failed f) now updated = tt

  -- Refused writes may stand in front.
  Attempted-after :
      (before : List Update) (state : Bool) (log : List Update) (error : Option Fault)
      → All IsRefused before
      → Attempted mutate error (record { state = state; log = log; error = error })
      → Attempted mutate error (record { state = state; log = before ++ log; error = error })
  Attempted-after before state log (some f) h k = All-append IsRefused before log h k
  Attempted-after before false log none h k = All-append IsRefused before log h k
  Attempted-after before true log none h k = record {
    read = k.read;
    now = k.now;
    changed = k.changed;
    earlier = before ++ k.earlier;
    refused = All-append IsRefused before k.earlier h k.refused;
    last = ap (λ (l : List Update). before ++ l) k.last ∙ sym (append_assoc before k.earlier _);
  }

  -- An attempt that is tried again has had every write refused.
  IsRefused-of :
      (f : Fault) (state : Bool) (log : List Update) (error : Option Fault)
      → error ≡ some f
      → Attempted mutate error (record { state = state; log = log; error = error })
      → All IsRefused log
  IsRefused-of f state log none e k = cc
  IsRefused-of f state log (some g) e k = k

  retried-Attempted :
      (retriable : Fault → Bool) (n : ℕ) (applied : Bool) (a : Attempt) (as' : List Attempt)
      → IsRetried (touch_attempt mutate) retriable n applied a as'
      → Attempted mutate
          (retried (touch_attempt mutate) applied a as').error
          (retried (touch_attempt mutate) applied a as')
  unfolding retried
  retried-Attempted retriable zero applied a as' h = absurd h
  retried-Attempted retriable (suc n) applied a [] h =
      touch_attempt-Attempted applied a.current a.now a.updated
  retried-Attempted retriable (suc n) applied a (b ∷ bs) ((f, failed_with, again), h) =
      let t = touch_attempt mutate applied a in
      let u = retried (touch_attempt mutate) t.state b bs in
      let one = touch_attempt-Attempted applied a.current a.now a.updated in
      Attempted-after t.log u.state u.log u.error
        (IsRefused-of f t.state t.log t.error failed_with one)
        (retried-Attempted retriable n t.state b bs h)

  -- How `touchStatus` reports what its attempts left.
  IsOnce-settled :
      (state : Bool) (log : List Update) (error : Option Fault)
      → Attempted mutate error (record { state = state; log = log; error = error })
      → IsOnce mutate (elim error [ some f ↦ (false, log) | none ↦ (state, log) ])
  IsOnce-settled state log none k = k
  IsOnce-settled state log (some f) k = k

  -- Over attempts that `retry.OnError` makes, `touchStatus` reports true behind a last write that is accepted
  -- and refused ones before it, and false behind refused writes alone.
  pub touch_status-IsOnce :
      (retriable : Fault → Bool) (n : ℕ) (a : Attempt) (as' : List Attempt)
      → IsRetried (touch_attempt mutate) retriable n false a as'
      → IsOnce mutate (touch_status mutate a as')
  unfolding touch_status
  touch_status-IsOnce retriable n a as' h =
      let t = retried (touch_attempt mutate) false a as' in
      IsOnce-settled t.state t.log t.error (retried-Attempted retriable n false a as' h)
