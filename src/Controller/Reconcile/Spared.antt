-- ===== src/Controller/Reconcile/Spared.antt =====
-- What a run of `Reconcile` may ask for, by what a fresh read of the inflight set shows.
use buildkit_operator.Base.{
  ℕ, ◌+◌, ◌*◌, ◌≡◌, ◌≤◌, refl, ap, sym, ◌∙◌, ◌⊎◌, inl, inr, Bool, true, false, ◌&&◌, not, ◌==◌,
  if◌then◌else◌, ℤ, ltb_ℤ, some, List, [], ◌∷◌, ◌++◌, map, is_empty, Bytes, subst, All, All-append,
  All-of, second, time_sub, time_sub-lt, arith, Bool-cases, ==_iff,
}
use buildkit_operator.Api.Types.{BuildProject, BuildProjectSpec, InflightBuild}
use buildkit_operator.Router.{is_fork_key, cache_pvc_name}
use buildkit_operator.Controller.Effects.{
  Read, found, missing, unreadable, Written, done, gone, refused, Result, ok, err, All-map,
  All-bind, All-write_ignoring_gone,
}
use buildkit_operator.Controller.Elasticity.{Settings, adaptive_idle_max}
use buildkit_operator.Controller.Elasticity.ScaleDown.{desired_replicas-≤1}
use buildkit_operator.Controller.Inflight.{fresh_inflight_entries}
use buildkit_operator.Controller.Guards.{
  GuardAction, delete_pvc, delete_project, create_service, update_service, create_budget,
  update_budget, delete_budget, reap_cache, reap_fork, service_of, budget_of,
}
use buildkit_operator.Controller.Roll.{StsAction}
use buildkit_operator.Controller.Snapshots.{maybe_snapshot}
use buildkit_operator.Controller.Fanout.{
  FanoutAction, delete_clone, create_clone, fanout_count, clone_keys, is_among, reconcile_fanout,
}
use buildkit_operator.Controller.Fanout.Spares.{IsSound, reconcile_fanout-IsSound}
use buildkit_operator.Controller.Autogrow.{FloatOps, maybe_auto_grow}
use buildkit_operator.Controller.Reconcile.{
  Action, guard, workload, snapshot, fanout, grow, Answers, Rendering, Memory, Outcome, View,
  confirm_on, confirm, finish, published, report, workload_on, service_run, budget_run,
  workload_run, service_on, reap, act, reconcile_project, reconcile_on, reconcile, cached_view,
  prepared, fork_reap_grace,
}
use buildkit_operator.Controller.Status.{set_held, ready_of}
use buildkit_operator.Controller.Reconcile.Parts.{
  replicas_of, ensure_stateful_set-HasDesired, IsHarmless, ensure_service-IsHarmless,
  ensure_pdb-IsHarmless,
}

module _ {F : Type 0} (ops : FloatOps F) (r : Settings) (w : Rendering F) (memory : Memory)
    (a : Answers) where
  -- A fresh read shows no live build.
  abbrev pub IsIdle : Type 0
  IsIdle = fresh_inflight_entries r a.fresh a.fresh_now ≡ ok []

  -- A fork may be reaped: it is one, it is idle, and it has had its grace.
  abbrev pub IsReapable : BuildProject → Type 0
  IsReapable bp =
      (is_fork_key bp.spec.key ≡ true) × IsIdle × (bp.creation_timestamp + 90 * second ≤ a.at_age)

  -- What a run may ask for: the cache and the project go if it is a reapable fork, a clone goes that is not
  -- wanted and on which a fresh read shows no build, and a StatefulSet is given no replica only if it is
  -- idle.
  abbrev pub IsSpared : BuildProject → Action → Type 0
  IsSpared bp (guard (delete_pvc name)) = (name ≡ cache_pvc_name bp.spec.key) × IsReapable bp
  IsSpared bp (guard (delete_project name)) = (name ≡ bp.name) × IsReapable bp
  IsSpared bp (fanout (delete_clone name)) =
      (is_among name (clone_keys bp.spec.key 1 (fanout_count bp.spec.fanout)) ≡ false)
      × (fresh_inflight_entries r (a.clones.fresh name) (a.clones.fresh_now name) ≡ ok [])
  IsSpared bp (workload x) = (replicas_of x ≡ some 1) ⊎ ((replicas_of x ≡ some 0) × IsIdle)
  IsSpared bp _ = Unit {0}

  -- The view after the confirmation: a replica is wanted, or the daemon is idle.
  abbrev pub IsConfirmed : View → Type 0
  IsConfirmed v = (v.desired ≡ 1) ⊎ ((v.desired ≡ 0) × IsIdle)

  confirm_on-IsConfirmed :
      (v u : View) (x : Result (List InflightBuild))
      → v.desired ≡ 0
      → fresh_inflight_entries r a.fresh a.fresh_now ≡ x
      → confirm_on v x ≡ ok u
      → IsConfirmed u
  unfolding confirm_on
  confirm_on-IsConfirmed v u (err x) z known e = absurd (cc e)
  confirm_on-IsConfirmed v u (ok []) z known e =
      let same : v ≡ u = cc e in inr (ap (λ (x : View). x.desired) (sym same) ∙ z, known)
  confirm_on-IsConfirmed v u (ok (b ∷ bs)) z known e =
      let same : record { live = b ∷ bs; desired = 1 } ≡ u = cc e in
      inl (ap (λ (x : View). x.desired) (sym same))

  confirm-IsConfirmed :
      (v u : View) → v.desired ≤ 1 → confirm r a.fresh a.fresh_now v ≡ ok u → IsConfirmed u
  unfolding confirm
  confirm-IsConfirmed v u h e = elim (Bool-cases (v.desired == 0)) [
    | inl z ↦
        let run : confirm r a.fresh a.fresh_now v
            ≡ confirm_on v (fresh_inflight_entries r a.fresh a.fresh_now) =
          rw z in
        confirm_on-IsConfirmed v u (fresh_inflight_entries r a.fresh a.fresh_now)
          ((==_iff v.desired 0).0 z) refl (sym run ∙ e)
    | inr n ↦
        let same : v ≡ u = cc (n, e) in inl (ap (λ (x : View). x.desired) (sym same) ∙ ground arith)
  ]

  guards-IsSpared :
      (bp : BuildProject) (log : List GuardAction)
      → All IsHarmless log
      → All (IsSpared bp) (map guard log)
  guards-IsSpared bp [] h = tt
  guards-IsSpared bp (create_service s ∷ log) h = (tt, guards-IsSpared bp log h.1)
  guards-IsSpared bp (update_service s ∷ log) h = (tt, guards-IsSpared bp log h.1)
  guards-IsSpared bp (create_budget s ∷ log) h = (tt, guards-IsSpared bp log h.1)
  guards-IsSpared bp (update_budget s ∷ log) h = (tt, guards-IsSpared bp log h.1)
  guards-IsSpared bp (delete_budget ∷ log) h = (tt, guards-IsSpared bp log h.1)
  guards-IsSpared bp (delete_pvc s ∷ log) h = absurd h.0
  guards-IsSpared bp (delete_project s ∷ log) h = absurd h.0

  replicas :
      (v : View) (x : StsAction)
      → IsConfirmed v
      → replicas_of x ≡ some v.desired
      → (replicas_of x ≡ some 1) ⊎ ((replicas_of x ≡ some 0) × IsIdle)
  replicas v x (inl up) e = inl (e ∙ ap some up)
  replicas v x (inr (down, idle)) e = inr (e ∙ ap some down, idle)

  workload-IsSpared :
      (bp : BuildProject) (v : View) (log : List StsAction)
      → IsConfirmed v
      → All (λ x. replicas_of x ≡ some v.desired) log
      → All (IsSpared bp) (map workload log)
  workload-IsSpared bp v [] c h = tt
  workload-IsSpared bp v (x ∷ log) c h = (replicas v x c h.0, workload-IsSpared bp v log c h.1)

  -- What fan-out may do, it may do in a run on the project.
  fanout-IsSpared :
      (bp q : BuildProject) (snap : Bytes) (x : FanoutAction)
      → bp.spec ≡ q.spec
      → IsSound r bp snap a.clones x
      → IsSpared q (fanout x)
  fanout-IsSpared bp q snap (delete_clone name) same (unwanted, idle) = (
    subst
        (λ (s : BuildProjectSpec).
          is_among name (clone_keys s.key 1 (fanout_count s.fanout)) ≡ false)
        same unwanted,
    idle,
  )
  fanout-IsSpared bp q snap (create_clone ckey labels spec) same h = tt

  fanouts-IsSpared :
      (bp q : BuildProject) (snap : Bytes) (log : List FanoutAction)
      → bp.spec ≡ q.spec
      → All (IsSound r bp snap a.clones) log
      → All (IsSpared q) (map fanout log)
  fanouts-IsSpared bp q snap [] same h = tt
  fanouts-IsSpared bp q snap (x ∷ log) same h =
      (fanout-IsSpared bp q snap x same h.0, fanouts-IsSpared bp q snap log same h.1)

  finish-IsSpared :
      (mem : Memory) (log : List Action) (bp q : BuildProject) (v : View) (ready : ℤ) (held : Bool)
      → bp.spec ≡ q.spec
      → All (IsSpared q) log
      → All (IsSpared q) (finish ops r w memory a mem log bp v ready held).log
  unfolding finish
  finish-IsSpared mem log bp q v ready held same h =
      let snap = maybe_snapshot r bp a.snapshots in
      let fan = reconcile_fanout r bp snap.last_snapshot a.clones in
      let grown =
        (maybe_auto_grow ops r w.has_probe w.default_factor w.factor bp ready mem.gates
          a.growth).0 in
      let after_fan : All (IsSpared q) (map fanout fan.log ++ map grow grown.log) =
        All-append (IsSpared q) (map fanout fan.log) (map grow grown.log)
          (fanouts-IsSpared bp q snap.last_snapshot fan.log same
            (reconcile_fanout-IsSound r bp snap.last_snapshot a.clones))
          (All-map (IsSpared q) grow grown.log
            (All-of (λ x. IsSpared q (grow x)) (λ x. tt) grown.log)) in
      All-append (IsSpared q) log
        (map snapshot snap.log ++ (map fanout fan.log ++ map grow grown.log)) h
        (All-append (IsSpared q) (map snapshot snap.log) (map fanout fan.log ++ map grow grown.log)
          (All-map (IsSpared q) snapshot snap.log
            (All-of (λ x. IsSpared q (snapshot x)) (λ x. tt) snap.log))
          after_fan)

  module _ (q : BuildProject) where
    if-IsSpared :
        (c : Bool) (m n : Outcome)
        → All (IsSpared q) m.log
        → All (IsSpared q) n.log
        → All (IsSpared q) (if c then m else n).log
    if-IsSpared true m n hm hn = hm
    if-IsSpared false m n hm hn = hn

    published-IsSpared :
        (mem : Memory) (log : List Action) (bp : BuildProject) (v : View) (ready : ℤ) (held : Bool)
        (x : Written)
        → bp.spec ≡ q.spec
        → All (IsSpared q) log
        → All (IsSpared q) (published ops r w memory a mem log bp v ready held x).log
    unfolding published
    published-IsSpared mem log bp v ready held done same h =
        finish-IsSpared mem log bp q v ready held same h
    published-IsSpared mem log bp v ready held gone same h = h
    published-IsSpared mem log bp v ready held (refused e) same h = h

    report-IsSpared :
        (mem : Memory) (log : List Action) (bp : BuildProject) (v : View) (expired : ℕ)
        (adopted held : Bool)
        → bp.spec ≡ q.spec
        → All (IsSpared q) log
        → All (IsSpared q) (report ops r w memory a mem log bp v expired adopted held).log
    unfolding report
    report-IsSpared mem log bp v expired adopted held same h =
        if-IsSpared _ _ _
          (published-IsSpared mem _ _ v (ready_of a.ready) held a.status_written same
            (All-append (IsSpared q) log _ h (tt, tt)))
          (finish-IsSpared mem log _ q v (ready_of a.ready) held same h)

    workload_on-IsSpared :
        (log : List Action) (bp : BuildProject) (v : View) (expired : ℕ) (adopted : Bool)
        (x : Result Bool)
        → bp.spec ≡ q.spec
        → All (IsSpared q) log
        → All (IsSpared q) (workload_on ops r w memory a log bp v expired adopted x).log
    unfolding workload_on
    workload_on-IsSpared log bp v expired adopted (err e) same h = h
    workload_on-IsSpared log bp v expired adopted (ok held) same h =
        report-IsSpared (record memory { held = set_held memory.held bp.spec.key held }) log bp v
          expired adopted held same h

    service_on-IsSpared :
        (bp : BuildProject) (v : View) (expired : ℕ) (adopted : Bool) (x : Result (Unit {0}))
        → bp.spec ≡ q.spec
        → IsConfirmed v
        → All (IsSpared q) (service_on ops r w memory a bp v expired adopted x).log
    unfolding service_on
    service_on-IsSpared bp v expired adopted (err e) same c =
        guards-IsSpared q (service_run ops r w memory a bp).log (
          ensure_service-IsHarmless (service_of w.labels r.port bp) a.service_owner a.service
            a.service_written)
    service_on-IsSpared bp v expired adopted (ok _) same c =
        let service = (service_run ops r w memory a bp).log in
        let budget = (budget_run ops r w memory a bp v).log in
        let sts = (workload_run ops r w memory a bp v).log in
        workload_on-IsSpared ((map guard service ++ map guard budget) ++ map workload sts) bp v
          expired adopted (workload_run ops r w memory a bp v).result same
          (All-append (IsSpared q) (map guard service ++ map guard budget) (map workload sts)
            (All-append (IsSpared q) (map guard service) (map guard budget)
              (guards-IsSpared q service (
                ensure_service-IsHarmless (service_of w.labels r.port bp) a.service_owner a.service
                  a.service_written))
              (guards-IsSpared q budget (
                ensure_pdb-IsHarmless (budget_of w.labels bp (not (is_empty v.live))) a.budget_owner
                  a.budget a.budget_written)))
            (workload-IsSpared q v sts c
              (ensure_stateful_set-HasDesired r (w.stateful_set bp) a.workload v.desired v.live)))

  reap_cache-IsSpared :
      (bp : BuildProject) (pvc : Read (Unit {0})) (deleted : Written)
      → IsReapable bp
      → All (λ x. IsSpared bp (guard x)) (reap_cache (cache_pvc_name bp.spec.key) pvc deleted).log
  unfolding reap_cache
  reap_cache-IsSpared bp (found _) deleted h =
      All-write_ignoring_gone (λ x. IsSpared bp (guard x)) (delete_pvc (cache_pvc_name bp.spec.key))
        deleted tt (refl, h)
  reap_cache-IsSpared bp missing deleted h = tt
  reap_cache-IsSpared bp (unreadable e) deleted h = tt

  reap_fork-IsSpared :
      (bp : BuildProject)
      → IsReapable bp
      → All
          (λ x. IsSpared bp (guard x))
          (reap_fork bp a.fork_pvc a.fork_pvc_deleted a.fork_deleted).log
  unfolding reap_fork
  reap_fork-IsSpared bp h =
      All-bind (λ x. IsSpared bp (guard x))
        (reap_cache (cache_pvc_name bp.spec.key) a.fork_pvc a.fork_pvc_deleted) _
        (reap_cache-IsSpared bp a.fork_pvc a.fork_pvc_deleted h)
        (λ _.
          All-write_ignoring_gone (λ x. IsSpared bp (guard x)) (delete_project bp.name)
            a.fork_deleted tt (refl, h))

  reap-IsSpared :
      (bp : BuildProject)
      → is_fork_key bp.spec.key ≡ true
      → IsIdle
      → All (IsSpared bp) (reap ops r w memory a bp).log
  unfolding reap
  reap-IsSpared bp fork idle =
      let log = (reap_fork bp a.fork_pvc a.fork_pvc_deleted a.fork_deleted).log in
      elim (Bool-cases (ltb_ℤ (time_sub a.at_age bp.creation_timestamp) fork_reap_grace)) [
        | inl young ↦ rw young tt
        | inr old ↦
            let graced : bp.creation_timestamp + 90 * second ≤ a.at_age =
              ground (arith, old, time_sub-lt a.at_age bp.creation_timestamp (90 * second)) in
            rw old (All-map (IsSpared bp) guard log (reap_fork-IsSpared bp (fork, idle, graced)))
      ]

  act-IsSpared :
      (bp : BuildProject) (expired : ℕ) (adopted : Bool) (x : Result View)
      → ((u : View) → x ≡ ok u → IsConfirmed u)
      → All (IsSpared bp) (act ops r w memory a bp expired adopted x).log
  unfolding act
  act-IsSpared bp expired adopted (err e) h = tt
  act-IsSpared bp expired adopted (ok v) h =
      elim (Bool-cases (is_fork_key bp.spec.key && (v.desired == 0))) [
        | inl reaps ↦ rw reaps (elim (h v refl) [
          | inl up ↦ absurd (ground arith)
          | inr (_, idle) ↦ reap-IsSpared bp (ground arith) idle
        ])
        | inr stays ↦ rw stays (
            service_on-IsSpared bp bp v expired adopted (service_run ops r w memory a bp).result
              refl (h v refl))
      ]

  reconcile_project-IsSpared :
      (object : BuildProject)
      → All
          (IsSpared (prepared ops r w memory a object))
          (reconcile_project ops r w memory a object).log
  unfolding reconcile_project
  reconcile_project-IsSpared object =
      let bp = prepared ops r w memory a object in
      let v = cached_view ops r w memory a bp in
      act-IsSpared bp _ _ (confirm r a.fresh a.fresh_now v) (λ u e.
        confirm-IsConfirmed v u (desired_replicas-≤1 bp v.live a.at_desired (adaptive_idle_max r))
          e)

  -- For an object that is read, a run of Reconcile asks for the project's cache volume or the
  -- project itself to be deleted only if it is a fork, a fresh read shows no live build on it, and
  -- it is at least ninety seconds old; it asks for a fan-out clone to be deleted only if the
  -- project's fan-out does not want its key and a fresh read of the clone shows no live build; and
  -- it gives the StatefulSet either one replica or, if a fresh read shows no live build, none.
  -- This holds for every answer of the environment.
  pub reconcile-IsSpared :
      (object : BuildProject)
      → a.object ≡ found object
      → All (IsSpared (prepared ops r w memory a object)) (reconcile ops r w memory a).log
  unfolding reconcile_on
  reconcile-IsSpared object e =
      let runs : reconcile ops r w memory a ≡ reconcile_project ops r w memory a object =
        ap (reconcile_on ops r w memory a) e in
      rw runs (reconcile_project-IsSpared object)
