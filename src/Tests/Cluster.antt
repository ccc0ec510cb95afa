-- ===== src/Tests/Cluster.antt =====
-- Inputs for the theorems on snapshots, clones, growth, guards and the whole run.
use buildkit_operator.Base.{
  ◌*◌, ◌≡◌, ◌⊎◌, refl, arith, true, false, pos, ℤ, ltb_ℤ, leb_ℤ, ◌*ℤ◌, ◌≤ℤ◌, none, some, List, [],
  ◌∷◌, Bytes, text, All, Time, second, hour, seconds, wrap64,
}
use buildkit_operator.Api.Types.{BuildProjectSpec, BuildProjectStatus, BuildProject, tier_warm}
use buildkit_operator.Controller.Effects.{found, missing, done}
use buildkit_operator.Controller.Elasticity.{Settings}
use buildkit_operator.Controller.Guards.{Service}
use buildkit_operator.Controller.Roll.{StsAnswers}
use buildkit_operator.Controller.Requeue.{Passed, requeue_after}
use buildkit_operator.Controller.Requeue.Prompt.{IsPrompt, requeue_after-IsPrompt}
use buildkit_operator.Controller.Snapshots.{
  Snapshot, SnapAnswers, kept_count, prune_snapshots, maybe_snapshot,
}
use buildkit_operator.Controller.Snapshots.Retention.{KeepsNewest, prune_snapshots-KeepsNewest}
use buildkit_operator.Controller.Snapshots.Due.{AllOlder, maybe_snapshot-IsDue}
use buildkit_operator.Controller.Fanout.{FanoutAnswers, reconcile_fanout}
use buildkit_operator.Controller.Fanout.Spares.{IsSound, reconcile_fanout-IsSound}
use buildkit_operator.Controller.Autogrow.{Pvc, FloatOps, GrowAnswers, maybe_auto_grow}
use buildkit_operator.Controller.Autogrow.Growth.{IsSafe, maybe_auto_grow-IsSafe}
use buildkit_operator.Controller.Reconcile.{Answers, Rendering, Memory, reconcile, prepared}
use buildkit_operator.Controller.Reconcile.Spared.{IsSpared, reconcile-IsSpared}

abbrev today : Time
today = 100 * hour

abbrev settings : Settings
settings = record {
  keep_snapshots = pos 2;
  max_build_seconds = pos 0;
  adaptive_idle_max_seconds = pos 0;
  auto_grow_threshold_pct = pos 80;
  auto_grow_max_gi = pos 200;
  namespace = text "buildkit";
  snapshot_class = text "csi";
  port = pos 1234;
}

abbrev fork_spec : BuildProjectSpec
fork_spec = record {
  key = text "f0123456789abcdef";
  repo = text "github.com/socialgouv/x";
  name = [];
  target = text "default";
  arch = text "amd64";
  storage_class = [];
  cache_volume_gi = pos 20;
  tier = tier_warm;
  idle_timeout_sec = pos 300;
  snapshot_every_sec = pos 3600;
  restore_from_snapshot = [];
  fanout = pos 1;
  s3_cache_policy = [];
  security_profile = [];
  resources = [];
}

abbrev idle_status : BuildProjectStatus
idle_status = record {
  phase = text "Warm";
  replicas = pos 1;
  endpoint = [];
  last_build_time = some (90 * hour);
  recent_build_times = [];
  last_snapshot = text "snap-1";
  inflight = [];
  inflight_builds = pos 0;
  last_cache_export_grant = none;
}

abbrev fork : BuildProject
fork = record {
  name = text "f0123456789abcdef";
  creation_timestamp = 80 * hour;
  spec = fork_spec;
  status = idle_status;
}

-- Whole numbers in place of floating-point ones.
abbrev whole : FloatOps ℤ
whole = record {
  of_int = λ n. n;
  times = λ m n. m *ℤ n;
  over = λ m n. m;
  below = λ m n. ltb_ℤ m n;
  up_to = λ m n. leb_ℤ m n;
  ceil = λ n. n;
  to_int = λ n. n;
}

truncates : (x m : ℤ) → ltb_ℤ x m ≡ true → x ≤ℤ m
truncates x m h = ground arith

abbrev volume : Pvc
volume = record {
  name = text "cache";
  request = pos 21474836480;
  capacity = pos 21474836480;
  conditions = [];
}

abbrev growth : GrowAnswers
growth = record {
  pvc = found volume;
  at_bounce = today;
  fresh = found fork;
  fresh_now = today;
  idle_pod = found tt;
  pod_deleted = done;
  at_probe = today;
  pod = found (text "10.0.0.1");
  usage = some (90, 100);
  pvc_attempts = (record { current = found volume; updated = done }, []);
  spec_attempts = (record { current = found fork; updated = done }, []);
}

abbrev canonical : BuildProject
canonical = record fork { spec = record fork_spec { key = text "p0123456789abcdef" } }

maybe_auto_grow-IsSafe_example :
    All
      (IsSafe settings growth)
      (maybe_auto_grow whole settings true
        (pos 2)
        (pos 2)
        canonical
        (pos 1)
        (record { bounce = []; probe = [] })
        growth).0.log
maybe_auto_grow-IsSafe_example =
    maybe_auto_grow-IsSafe settings growth whole true (pos 2) (pos 2) canonical (pos 1)
      (record { bounce = []; probe = [] })

abbrev clones : FanoutAnswers
clones = record {
  clones = found (record fork { name = text "old-clone" } ∷ []);
  fresh = λ name. found fork;
  fresh_now = λ name. today;
  deleted = λ name. done;
  existing = λ name. missing;
  owner = λ name. none;
  created = λ name. done;
}

reconcile_fanout-IsSound_example :
    All
      (IsSound settings fork (text "snap-1") clones)
      (reconcile_fanout settings fork (text "snap-1") clones).log
reconcile_fanout-IsSound_example = reconcile_fanout-IsSound settings fork (text "snap-1") clones

abbrev shots : List Snapshot
shots =
    record { name = text "a"; created = 10 }
    ∷ record { name = text "b"; created = 30 }
    ∷ record { name = text "c"; created = 20 }
    ∷ []

prune_snapshots-KeepsNewest_example :
    KeepsNewest (kept_count (pos 2)) shots (prune_snapshots (pos 2) shots)
prune_snapshots-KeepsNewest_example = prune_snapshots-KeepsNewest (pos 2) shots

abbrev snap_answers : SnapAnswers
snap_answers = record {
  pvc = found tt;
  snaps = found shots;
  at_age = today;
  at_name = today;
  owner = none;
  created = done;
  made_at = today;
}

maybe_snapshot-IsDue_example :
    ((maybe_snapshot settings fork snap_answers).log ≡ [])
    ⊎ ((ss : List Snapshot) × (snap_answers.snaps ≡ found ss) × AllOlder ss (3600 * second) today)
unfolding seconds wrap64 ◌*ℤ◌
maybe_snapshot-IsDue_example =
    maybe_snapshot-IsDue settings fork snap_answers (3600 * second) refl (omega arith) (omega arith)

abbrev old_service : Service
old_service = record { kind = text "LoadBalancer"; port = pos 1234; selector = text "p" }

abbrev new_service : Service
new_service = record { kind = text "ClusterIP"; port = pos 1234; selector = text "p" }

abbrev labels : BuildProject → Bytes
labels bp = bp.spec.key

abbrev passed : Passed
passed = record {
  project = fork;
  live = [];
  desired = 1;
  ready = pos 0;
  snap_after = pos 0;
  prune_pending = false;
  roll_held = true;
  at_recheck = today;
  at_until = today;
}

requeue_after-IsPrompt_example : IsPrompt settings passed (requeue_after settings passed)
requeue_after-IsPrompt_example = requeue_after-IsPrompt settings passed

abbrev rendering : Rendering ℤ
rendering = record {
  labels = labels;
  stateful_set = λ bp. record { template = text "pod"; hash = text "1" };
  has_probe = true;
  default_factor = pos 2;
  factor = pos 2;
}

abbrev memory : Memory
memory = record { gates = record { bounce = []; probe = [] }; held = [] }

abbrev workload_answers : StsAnswers
workload_answers = record {
  owner = none;
  existing = missing;
  fresh = found fork;
  fresh_now = today;
  pods = found [];
  clock = record { at_stamp = today; at_youngest = today; at_held = today };
  created = done;
  patched = done;
}

abbrev answers : Answers
answers = record {
  object = found fork;
  at_expiry = today;
  at_desired = today;
  fresh = found fork;
  fresh_now = today;
  at_age = today;
  fork_pvc = found tt;
  fork_pvc_deleted = done;
  fork_deleted = done;
  service_owner = none;
  service = missing;
  service_written = done;
  budget_owner = none;
  budget = missing;
  budget_written = done;
  workload = workload_answers;
  ready = found (pos 1);
  pods = found [];
  condition = none;
  status_written = done;
  snapshots = snap_answers;
  clones = clones;
  growth = growth;
  at_recheck = today;
  at_until = today;
}

reconcile-IsSpared_example :
    All
      (IsSpared whole settings rendering memory answers
        (prepared whole settings rendering memory answers fork))
      (reconcile whole settings rendering memory answers).log
reconcile-IsSpared_example = reconcile-IsSpared whole settings rendering memory answers fork refl
