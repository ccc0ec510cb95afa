-- ===== src/Controller/Reconcile.antt =====
-- `Reconcile` of internal/controller/buildproject_controller.go: the parts in the order in which the code
-- calls them, on the answers that the environment gives.
pub mod Parts
pub mod Spared
use buildkit_operator.Base.{
  ℕ, ◌*◌, ◌≡◌, Bool, true, false, ◌||◌, ◌&&◌, not, ltb, ◌==◌, if◌then◌else◌, ℤ, pos, ◌-ℤ◌, wrap64,
  ltb_ℤ, leb_ℤ, eqb_ℤ, Option, none, some, List, [], ◌∷◌, ◌++◌, map, length, is_empty, filter,
  Bytes, text, bytes_eq, Time, Duration, second, time_sub,
}
use buildkit_operator.Api.Types.{BuildProject, BuildProjectStatus, InflightBuild}
use buildkit_operator.Api.Defaults.{apply_defaults}
use buildkit_operator.Api.Inflight.{adopt_legacy_inflight, expire_inflight, set_inflight}
use buildkit_operator.Router.{is_fork_key, endpoint}
use buildkit_operator.Controller.Effects.{
  Error, Read, found, missing, unreadable, Written, done, gone, refused, Result, ok, err, Run,
  relabel,
}
use buildkit_operator.Controller.Elasticity.{
  Settings, max_build_age, adaptive_idle_max, desired_replicas, phase_from,
}
use buildkit_operator.Controller.Health.{Pod, daemon_failure}
use buildkit_operator.Controller.Inflight.{fresh_inflight_entries}
use buildkit_operator.Controller.Guards.{
  Service, Budget, GuardAction, service_of, budget_of, ensure_service, ensure_pdb, reap_fork,
}
use buildkit_operator.Controller.Roll.{Want, StsAction, StsAnswers, ensure_stateful_set}
use buildkit_operator.Controller.Snapshots.{SnapAction, SnapAnswers, SnapRun, maybe_snapshot}
use buildkit_operator.Controller.Fanout.{
  FanoutAction, FanoutAnswers, FanoutRun, is_among, reconcile_fanout,
}
use buildkit_operator.Controller.Autogrow.{
  FloatOps, GrowAction, GrowAnswers, Gates, maybe_auto_grow,
}
use buildkit_operator.Controller.Status.{
  Condition, set_held, ready_of, phase_of, next_status, rewrites_inflight, ready_condition,
  status_changed,
}
use buildkit_operator.Controller.Requeue.{Passed, requeue_after}

pub data Action : Type 0 where
  guard : GuardAction → Action
  workload : StsAction → Action
  update_status : BuildProjectStatus → Condition → Action
  snapshot : SnapAction → Action
  fanout : FanoutAction → Action
  grow : GrowAction → Action

-- Everything that the environment answers on the way, the clock included.
pub record Answers : Type 0 where
  pub object : Read BuildProject
  pub at_expiry : Time
  pub at_desired : Time
  pub fresh : Read BuildProject
  pub fresh_now : Time
  pub at_age : Time
  pub fork_pvc : Read (Unit {0})
  pub fork_pvc_deleted : Written
  pub fork_deleted : Written
  pub service_owner : Option Error
  pub service : Read Service
  pub service_written : Written
  pub budget_owner : Option Error
  pub budget : Read Budget
  pub budget_written : Written
  pub workload : StsAnswers
  pub ready : Read ℤ
  pub pods : Read (List Pod)
  pub condition : Option Condition
  pub status_written : Written
  pub snapshots : SnapAnswers
  pub clones : FanoutAnswers
  pub growth : GrowAnswers
  pub at_recheck : Time
  pub at_until : Time

-- What is rendered for a project by internal/builder/statefulset.go, and what is set by flags.
pub record Rendering (F : Type 0) : Type 0 where
  pub labels : BuildProject → Bytes
  pub stateful_set : BuildProject → Want
  pub has_probe : Bool
  pub default_factor : F
  pub factor : F

-- What the reconciler keeps between runs: the gates of auto-grow, and the keys whose roll is held.
pub record Memory : Type 0 where
  pub gates : Gates
  pub held : List Bytes

-- How `Reconcile` returns: `requeue` is 0 for no requeue.
pub record Outcome : Type 0 where
  pub log : List Action
  pub requeue : Duration
  pub error : Option Error
  pub memory : Memory

abbrev pub fork_reap_grace : Duration
fork_reap_grace = pos (90 * second)

-- The view that every later decision shares.
pub record View : Type 0 where
  pub live : List InflightBuild
  pub desired : ℕ

-- The view, by what the fresh read says: its entries, if there are any, replace the cached ones.
unfoldable pub confirm_on : View → Result (List InflightBuild) → Result View
confirm_on v (err e) = err e
confirm_on v (ok []) = ok v
confirm_on v (ok (b ∷ bs)) = ok (record { live = b ∷ bs; desired = 1 })

-- Taking the daemon down is confirmed against the API server.
unfoldable pub confirm : Settings → Read BuildProject → Time → View → Result View
confirm r fresh now v =
    if v.desired == 0 then confirm_on v (fresh_inflight_entries r fresh now) else ok v

module _ {F : Type 0} (ops : FloatOps F) (r : Settings) (w : Rendering F) (memory : Memory)
    (a : Answers) where
  abbrev pub stop : Memory → List Action → Option Error → Outcome
  stop mem log e = record { log = log; requeue = pos 0; error = e; memory = mem }

  -- The last part, behind the status: snapshots, clones, growth and the requeue.
  unfoldable pub finish : Memory → List Action → BuildProject → View → ℤ → Bool → Outcome
  finish mem log bp v ready held =
      let snap = maybe_snapshot r bp a.snapshots in
      let fan = reconcile_fanout r bp snap.last_snapshot a.clones in
      let (grown, gates') =
        maybe_auto_grow ops r w.has_probe w.default_factor w.factor bp ready mem.gates a.growth in
      record {
        log = log ++ (map snapshot snap.log ++ (map fanout fan.log ++ map grow grown.log));
        requeue = requeue_after r (record {
          project = bp;
          live = v.live;
          desired = v.desired;
          ready = ready;
          snap_after = snap.after;
          prune_pending = fan.deferred;
          roll_held = held;
          at_recheck = a.at_recheck;
          at_until = a.at_until;
        });
        error = none;
        memory = record mem { gates = gates' };
      }

  -- By what the write of the status answers; a project that is gone ends the run without an error.
  unfoldable pub published :
      Memory → List Action → BuildProject → View → ℤ → Bool → Written → Outcome
  published mem log bp v ready held done = finish mem log bp v ready held
  published mem log bp v ready held gone = stop mem log none
  published mem log bp v ready held (refused e) = stop mem log (some e)

  -- The status, if it has changed.
  unfoldable pub report : Memory → List Action → BuildProject → View → ℕ → Bool → Bool → Outcome
  report mem log bp v expired adopted held =
      let ready = ready_of a.ready in
      let phase = phase_of v.desired ready a.pods in
      let endpoint' = endpoint bp.spec.key r.namespace r.port in
      let rewrites = rewrites_inflight bp.status v.live expired adopted in
      let next = next_status bp.status v.live rewrites ready phase endpoint' in
      let bp' : BuildProject = record bp { status = next } in
      let written = log ++ (update_status next (ready_condition ready phase) ∷ []) in
      if status_changed bp.status a.condition ready phase endpoint' || rewrites
      then published mem written bp' v ready held a.status_written
      else finish mem log bp' v ready held

  -- By what the workload answers.
  unfoldable pub workload_on : List Action → BuildProject → View → ℕ → Bool → Result Bool → Outcome
  workload_on log bp v expired adopted (err e) = stop memory log (some e)
  workload_on log bp v expired adopted (ok held) =
      report (record memory { held = set_held memory.held bp.spec.key held }) log bp v expired
        adopted held

  abbrev pub service_run : BuildProject → Run GuardAction (Unit {0})
  service_run bp =
      ensure_service (service_of w.labels r.port bp) a.service_owner a.service a.service_written

  abbrev pub budget_run : BuildProject → View → Run GuardAction (Unit {0})
  budget_run bp v =
      ensure_pdb (budget_of w.labels bp (not (is_empty v.live))) a.budget_owner a.budget
        a.budget_written

  abbrev pub workload_run : BuildProject → View → Run StsAction Bool
  workload_run bp v = ensure_stateful_set r (w.stateful_set bp) a.workload v.desired v.live

  -- By what the Service answers: the budget, which is best effort, and the workload.
  unfoldable pub service_on : BuildProject → View → ℕ → Bool → Result (Unit {0}) → Outcome
  service_on bp v expired adopted (err e) = stop memory (map guard (service_run bp).log) (some e)
  service_on bp v expired adopted (ok _) =
      let guards = map guard (service_run bp).log ++ map guard (budget_run bp v).log in
      workload_on (guards ++ map workload (workload_run bp v).log) bp v expired adopted
        (workload_run bp v).result

  abbrev pub converge_daemon : BuildProject → View → ℕ → Bool → Outcome
  converge_daemon bp v expired adopted = service_on bp v expired adopted (service_run bp).result

  -- An idle fork is reaped once it has had its grace.
  unfoldable pub reap : BuildProject → Outcome
  reap bp =
      let age = time_sub a.at_age bp.creation_timestamp in
      let run = reap_fork bp a.fork_pvc a.fork_pvc_deleted a.fork_deleted in
      if ltb_ℤ age fork_reap_grace
      then record {
        log = [];
        requeue = wrap64 (fork_reap_grace -ℤ age);
        error = none;
        memory = memory;
      }
      else stop memory (map guard run.log) (elim run.result [ ok _ ↦ none | err e ↦ some e ])

  -- From the confirmed view on.
  unfoldable pub act : BuildProject → ℕ → Bool → Result View → Outcome
  act bp expired adopted (err e) = stop memory [] (some e)
  act bp expired adopted (ok v) =
      if is_fork_key bp.spec.key && (v.desired == 0)
      then reap bp
      else converge_daemon bp v expired adopted

  -- The object with its defaults and its adopted entries.
  abbrev pub prepared : BuildProject → BuildProject
  prepared bp = record bp {
    spec = apply_defaults bp.spec;
    status = (adopt_legacy_inflight bp.status).0;
  }

  -- What the cached object says.
  abbrev pub cached_view : BuildProject → View
  cached_view bp =
      let live = (expire_inflight bp.status.inflight a.at_expiry (max_build_age r)).0 in
      record { live = live; desired = desired_replicas bp live a.at_desired (adaptive_idle_max r) }

  -- `Reconcile`, behind its `Get`.
  unfoldable pub reconcile_project : BuildProject → Outcome
  reconcile_project object =
      let bp = prepared object in
      let expired = (expire_inflight bp.status.inflight a.at_expiry (max_build_age r)).1 in
      act bp expired (adopt_legacy_inflight object.status).1
        (confirm r a.fresh a.fresh_now (cached_view bp))

  -- `Reconcile`, by what its `Get` answers.
  unfoldable pub reconcile_on : Read BuildProject → Outcome
  reconcile_on missing = stop memory [] none
  reconcile_on (unreadable e) = stop memory [] (some e)
  reconcile_on (found object) = reconcile_project object

  -- `Reconcile`.
  abbrev pub reconcile : Outcome
  reconcile = reconcile_on a.object
