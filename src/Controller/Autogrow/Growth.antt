-- ===== src/Controller/Autogrow/Growth.antt =====
-- `autoGrowTarget` and `maybeAutoGrow` of internal/controller/autogrow.go: what they ask for.
use buildkit_operator.Base.{
  ℕ, zero, suc, ◌≡◌, refl, ◌⊎◌, inl, inr, Bool, true, false, ◌==◌, ℤ, pos, leb_ℤ, ltb_ℤ, eqb_ℤ,
  ◌≤ℤ◌, ◌<ℤ◌, Option, none, some, List, [], ◌∷◌, Bytes, is_empty, All, All-append, arith,
  Bool-cases,
}
use buildkit_operator.Api.Types.{BuildProject}
use buildkit_operator.Controller.Effects.{
  Read, found, missing, unreadable, Read-cases, Result, ok, err, Run, return,
  All-write_ignoring_gone, All-if, All-bind,
}
use buildkit_operator.Controller.Elasticity.{Settings}
use buildkit_operator.Controller.Inflight.{fresh_inflight}
use buildkit_operator.Controller.Autogrow.{
  Pvc, gi_of, FloatOps, GrowAction, delete_pod, update_pvc, update_spec, Attempt, GrowAnswers,
  Gates, retried, grow_pvc, grow_spec, record_spec_gi, bounce_on, pod_name, auto_grow_target,
  apply_growth, decide_growth, probe_daemon, grow_on, grow_volume, maybe_auto_grow, is_disabled,
}

module _ {F : Type 0} (ops : FloatOps F)
    (truncates : (x : F) (m : ℤ) → ops.below x (ops.of_int m) ≡ true → ops.to_int x ≤ℤ m) where
  -- If the conversion of a float below an integer is at most that integer, autoGrowTarget is 0, or
  -- it is above the current size, at most the limit, and the usage is not below the threshold.
  pub auto_grow_target-Grows :
      (current : ℤ) (used : F) (threshold : ℤ) (factor : F) (limit : ℤ)
      → (auto_grow_target ops current used threshold factor limit ≡ pos 0)
        ⊎ ((current <ℤ auto_grow_target ops current used threshold factor limit)
            × (auto_grow_target ops current used threshold factor limit ≤ℤ limit)
            × (ops.below used (ops.of_int threshold) ≡ false))
  unfolding auto_grow_target
  auto_grow_target-Grows current used threshold factor limit =
      ground (arith, truncates (ops.ceil (ops.times (ops.of_int current) factor)) limit)

-- A write makes what was read larger, and a pod goes when a fresh read shows no build.
module _ (r : Settings) (a : GrowAnswers) where
  abbrev pub IsSafe : GrowAction → Type 0
  IsSafe (delete_pod name) = fresh_inflight r a.fresh a.fresh_now ≡ ok 0
  IsSafe (update_pvc cur gi) = gi_of cur.request <ℤ gi
  IsSafe (update_spec cur gi) = cur.spec.cache_volume_gi <ℤ gi

  grow_pvc-IsSafe : (next : ℤ) (x : Attempt Pvc) → All IsSafe (grow_pvc next x).log
  unfolding grow_pvc
  grow_pvc-IsSafe next x = ground arith

  grow_spec-IsSafe : (gi : ℤ) (x : Attempt BuildProject) → All IsSafe (grow_spec gi x).log
  unfolding grow_spec
  grow_spec-IsSafe gi x = ground arith

  retried-IsSafe :
      {A : Type 0} (body : Attempt A → Run GrowAction (Unit {0})) (x : Attempt A)
      (xs : List (Attempt A))
      → ((y : Attempt A) → All IsSafe (body y).log)
      → All IsSafe (retried body x xs).log
  unfolding retried
  retried-IsSafe body x [] h = h x
  retried-IsSafe body x (y ∷ ys) h =
      All-append IsSafe (body x).log (retried body y ys).log (h x) (retried-IsSafe body y ys h)

  record_spec_gi-IsSafe : (gi : ℤ) → All IsSafe (record_spec_gi a gi).log
  unfolding record_spec_gi
  record_spec_gi-IsSafe gi =
      retried-IsSafe (grow_spec gi) a.spec_attempts.0 a.spec_attempts.1 (grow_spec-IsSafe gi)

  bounce_on-IsSafe :
      (bp : BuildProject) (x : Result ℕ)
      → fresh_inflight r a.fresh a.fresh_now ≡ x
      → All IsSafe (bounce_on bp a x).log
  unfolding bounce_on
  bounce_on-IsSafe bp (err x) e = tt
  bounce_on-IsSafe bp (ok zero) e = elim (Read-cases a.idle_pod) [
    | inl (_, there) ↦
        rw there (All-write_ignoring_gone IsSafe (delete_pod (pod_name bp)) a.pod_deleted tt e)
    | inr (inl absent) ↦ rw absent tt
    | inr (inr (_, unread)) ↦ rw unread tt
  ]
  bounce_on-IsSafe bp (ok (suc n)) e = ground arith

  module _ {F : Type 0} (ops : FloatOps F) where
    apply_growth-IsSafe :
        (bp : BuildProject) (pvc : Pvc) (next : ℤ) → All IsSafe (apply_growth ops bp pvc a next).log
    unfolding apply_growth
    apply_growth-IsSafe bp pvc next =
        All-if IsSafe (eqb_ℤ next (pos 0)) _ _
          (All-if IsSafe (ltb_ℤ bp.spec.cache_volume_gi (gi_of pvc.request))
            (record_spec_gi a (gi_of pvc.request)) (return tt)
            (record_spec_gi-IsSafe (gi_of pvc.request)) tt)
          (All-if IsSafe (leb_ℤ next (gi_of pvc.request)) (return tt) _ tt (
            All-bind IsSafe (retried (grow_pvc next) a.pvc_attempts.0 a.pvc_attempts.1)
              (λ _. record_spec_gi a next)
              (retried-IsSafe (grow_pvc next) a.pvc_attempts.0 a.pvc_attempts.1
                (grow_pvc-IsSafe next))
              (λ _. record_spec_gi-IsSafe next)))

    decide_growth-IsSafe :
        (default factor : F) (bp : BuildProject) (pvc : Pvc) (usage : Option (ℕ × ℕ))
        → All IsSafe (decide_growth ops r default factor bp pvc a usage).log
    unfolding decide_growth
    decide_growth-IsSafe default factor bp pvc none = tt
    decide_growth-IsSafe default factor bp pvc (some (used, total)) =
        All-if IsSafe (total == 0) (return tt) _ tt (apply_growth-IsSafe bp pvc _)

    probe_daemon-IsSafe :
        (default factor : F) (bp : BuildProject) (pvc : Pvc) (pod : Read Bytes)
        → All IsSafe (probe_daemon ops r default factor bp pvc a pod).log
    unfolding probe_daemon
    probe_daemon-IsSafe default factor bp pvc missing = tt
    probe_daemon-IsSafe default factor bp pvc (unreadable e) = tt
    probe_daemon-IsSafe default factor bp pvc (found ip) =
        All-if IsSafe (is_empty ip) (return tt)
          (decide_growth ops r default factor bp pvc a a.usage) tt
          (decide_growth-IsSafe default factor bp pvc a.usage)

    grow_volume-IsSafe :
        (default factor : F) (bp : BuildProject) (pvc : Pvc) (ready : ℤ) (gates : Gates)
        → All IsSafe (grow_volume ops r default factor bp pvc ready gates a).0.log
    unfolding grow_volume
    grow_volume-IsSafe default factor bp pvc ready gates = ground (
      arith,
      probe_daemon-IsSafe default factor bp pvc a.pod,
      bounce_on-IsSafe bp (fresh_inflight r a.fresh a.fresh_now) refl,
    )

    grow_on-IsSafe :
        (default factor : F) (bp : BuildProject) (ready : ℤ) (gates : Gates) (pvc : Read Pvc)
        → All IsSafe (grow_on ops r default factor bp ready gates a pvc).0.log
    unfolding grow_on
    grow_on-IsSafe default factor bp ready gates missing = tt
    grow_on-IsSafe default factor bp ready gates (unreadable e) = tt
    grow_on-IsSafe default factor bp ready gates (found pvc) =
        grow_volume-IsSafe default factor bp pvc ready gates

    -- Every update of a volume by maybeAutoGrow asks for more than the request just read, every
    -- update of the spec for more than the size just read, and a pod is deleted only if a fresh
    -- read counts no live build, for every answer of the environment.
    pub maybe_auto_grow-IsSafe :
        (has_probe : Bool) (default factor : F) (bp : BuildProject) (ready : ℤ) (gates : Gates)
        → All IsSafe (maybe_auto_grow ops r has_probe default factor bp ready gates a).0.log
    unfolding maybe_auto_grow
    maybe_auto_grow-IsSafe has_probe default factor bp ready gates =
        elim (Bool-cases (is_disabled ops r has_probe bp)) [
          | inl off ↦ rw off tt
          | inr on ↦ rw on (grow_on-IsSafe default factor bp ready gates a.pvc)
        ]
