-- ===== src/Controller/Reconcile/Parts.antt =====
-- What the parts of `Reconcile` ask for: replica counts, and the actions of the guards.
use buildkit_operator.Base.{
  ℕ, ◌≡◌, refl, inl, inr, false, Option, none, some, List, All, Option-cases,
}
use buildkit_operator.Api.Types.{InflightBuild}
use buildkit_operator.Controller.Effects.{
  Error, Read, found, missing, unreadable, Read-cases, Written, Result-cases, All-if, All-write,
  All-write_ignoring_gone, return, fail, write,
}
use buildkit_operator.Controller.Elasticity.{Settings}
use buildkit_operator.Controller.Guards.{
  Service, Budget, same_service, is_converged, GuardAction, create_service, update_service,
  create_budget, update_budget, delete_budget, delete_pvc, delete_project, ensure_service,
  ensure_pdb,
}
use buildkit_operator.Controller.Roll.{
  StsAction, create, patch, StsAnswers, Want, StatefulSet, converge, ensure_stateful_set, roll_plan,
  Plan, is_settled, next_stateful_set,
}

-- The replica count that the StatefulSet is given.
abbrev pub replicas_of : StsAction → Option ℕ
replicas_of (create n) = some n
replicas_of (patch next) = next.replicas

module _ (r : Settings) (want : Want) (a : StsAnswers) (desired : ℕ)
    (live : List InflightBuild) where
  abbrev pub HasDesired : StsAction → Type 0
  HasDesired x = replicas_of x ≡ some desired

  converge-HasDesired :
      (sts : StatefulSet) (plan : Plan) → All HasDesired (converge want a sts desired plan).log
  unfolding converge
  converge-HasDesired sts plan = All-if HasDesired (is_settled sts desired plan) _ _ tt (
      All-write HasDesired (patch (next_stateful_set want sts desired plan)) a.patched plan.held
        refl)

  pub ensure_stateful_set-HasDesired :
      All HasDesired (ensure_stateful_set r want a desired live).log
  unfolding ensure_stateful_set
  ensure_stateful_set-HasDesired = elim (Option-cases a.owner) [
    | inl owned ↦ elim (Read-cases a.existing) [
      | inl (sts, exists) ↦ elim (Result-cases (roll_plan r want a sts live)) [
        | inl (plan, e) ↦
            let runs : ensure_stateful_set r want a desired live
                ≡ converge want a sts desired plan =
              cc (owned, exists, e) in
            rw runs (converge-HasDesired sts plan)
        | inr (x, failed) ↦
            let runs : ensure_stateful_set r want a desired live ≡ fail x =
              cc (owned, exists, failed) in
            rw runs tt
      ]
      | inr (inl absent) ↦
          let runs : ensure_stateful_set r want a desired live
              ≡ write (create desired) a.created false =
            cc (owned, absent) in
          rw runs (All-write HasDesired (create desired) a.created false refl)
      | inr (inr (x, unread)) ↦
          let runs : ensure_stateful_set r want a desired live ≡ fail x = cc (owned, unread) in
          rw runs tt
    ]
    | inr (x, failed) ↦
        let runs : ensure_stateful_set r want a desired live ≡ fail x = cc failed in rw runs tt
  ]

-- Neither guard asks for a volume or a project to go.
abbrev pub IsHarmless : GuardAction → Type 0
IsHarmless (delete_pvc name) = ⊥
IsHarmless (delete_project name) = ⊥
IsHarmless _ = Unit {0}

pub ensure_service-IsHarmless :
    (want : Service) (owner : Option Error) (existing : Read Service) (w : Written)
    → All IsHarmless (ensure_service want owner existing w).log
unfolding ensure_service
ensure_service-IsHarmless want (some e) existing w = tt
ensure_service-IsHarmless want none missing w = All-write IsHarmless (create_service want) w tt tt
ensure_service-IsHarmless want none (unreadable e) w = tt
ensure_service-IsHarmless want none (found s) w =
    All-if IsHarmless (same_service s want) (return tt) (write (update_service want) w tt) tt
      (All-write IsHarmless (update_service want) w tt tt)

pub ensure_pdb-IsHarmless :
    (want : Option Budget) (owner : Option Error) (existing : Read Budget) (w : Written)
    → All IsHarmless (ensure_pdb want owner existing w).log
unfolding ensure_pdb
ensure_pdb-IsHarmless none owner missing w = tt
ensure_pdb-IsHarmless none owner (unreadable e) w = tt
ensure_pdb-IsHarmless none owner (found b) w =
    All-write_ignoring_gone IsHarmless delete_budget w tt tt
ensure_pdb-IsHarmless (some want) (some e) existing w = tt
ensure_pdb-IsHarmless (some want) none missing w = All-write IsHarmless (create_budget want) w tt tt
ensure_pdb-IsHarmless (some want) none (unreadable e) w = tt
ensure_pdb-IsHarmless (some want) none (found b) w =
    All-if IsHarmless (is_converged b want) (return tt) (write (update_budget want) w tt) tt
      (All-write IsHarmless (update_budget want) w tt tt)
