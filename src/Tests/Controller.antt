-- ===== src/Tests/Controller.antt =====
-- Inputs for the theorems on scaling, the idle window and the drain.
use buildkit_operator.Base.{
  ◌+◌, ◌*◌, ◌≡◌, ◌≢◌, ap, refl, arith, true, false, pos, none, some, [], ◌∷◌, List, text, bytes_eq,
  All, Time, second, hour, seconds, time_sub, wrap64, ◌*ℤ◌, ◌<◌,
}
use buildkit_operator.Api.Types.{
  BuildProjectSpec, InflightBuild, BuildProjectStatus, BuildProject, tier_hot, tier_warm,
}
use buildkit_operator.Api.Adaptive.{builds_in_window}
use buildkit_operator.Api.Inflight.{expire_inflight}
use buildkit_operator.Router.{is_fork_key}
use buildkit_operator.Controller.Effects.{found, done, Read}
use buildkit_operator.Controller.Health.{Pod, daemon_failure, pods_failure}
use buildkit_operator.Controller.Elasticity.{
  Settings, max_build_age, effective_idle, desired_replicas,
}
use buildkit_operator.Controller.Elasticity.Window.{IsWindow, effective_idle-IsWindow}
use buildkit_operator.Controller.Elasticity.ScaleDown.{desired_replicas_keeps}
use buildkit_operator.Controller.Roll.{
  absent, at, HoldClock, StatefulSet, Want, StsAnswers, hold_roll, held_since, ensure_stateful_set,
}
use buildkit_operator.Controller.Roll.Hold.{hold_roll_bounded}
use buildkit_operator.Controller.Roll.Grace.{IsCareful, ensure_stateful_set-IsCareful}

abbrev today : Time
today = 100 * hour

abbrev settings : Settings
settings = record {
  keep_snapshots = pos 2;
  max_build_seconds = pos 0;
  adaptive_idle_max_seconds = pos 3600;
  auto_grow_threshold_pct = pos 80;
  auto_grow_max_gi = pos 200;
  namespace = text "buildkit";
  snapshot_class = [];
  port = pos 1234;
}

abbrev warm_spec : BuildProjectSpec
warm_spec = record {
  key = text "p0123456789abcdef";
  repo = text "github.com/socialgouv/x";
  name = [];
  target = text "default";
  arch = text "amd64";
  storage_class = [];
  cache_volume_gi = pos 20;
  tier = tier_warm;
  idle_timeout_sec = pos 900;
  snapshot_every_sec = pos 0;
  restore_from_snapshot = [];
  fanout = pos 0;
  s3_cache_policy = [];
  security_profile = [];
  resources = [];
}

abbrev build : InflightBuild
build = record { id = text "61"; since = 99 * hour }

abbrev status_of : List InflightBuild → BuildProjectStatus
status_of bs = record {
  phase = text "Warm";
  replicas = pos 1;
  endpoint = [];
  last_build_time = some (99 * hour);
  recent_build_times = 98 * hour ∷ 99 * hour ∷ [];
  last_snapshot = [];
  inflight = bs;
  inflight_builds = pos 0;
  last_cache_export_grant = none;
}

abbrev busy : BuildProject
busy = record {
  name = text "p0123456789abcdef";
  creation_timestamp = 0;
  spec = warm_spec;
  status = status_of (build ∷ []);
}

abbrev quiet : BuildProject
quiet = record {
  name = text "p0123456789abcdef";
  creation_timestamp = 0;
  spec = warm_spec;
  status = status_of [];
}

effective_idle-IsWindow_example :
    IsWindow
      (900 * second)
      (3600 * second)
      (builds_in_window (98 * hour ∷ 99 * hour ∷ []) today)
      (effective_idle quiet today (pos (3600 * second)))
unfolding builds_in_window time_sub
effective_idle-IsWindow_example =
    effective_idle-IsWindow quiet today 900 (3600 * second) refl (omega arith)

idle_window : effective_idle quiet today (pos (3600 * second)) ≡ pos (1800 * second)
unfolding effective_idle builds_in_window is_fork_key bytes_eq seconds wrap64 ◌*ℤ◌ time_sub
idle_window = refl

desired_replicas_keeps_example :
    desired_replicas busy (expire_inflight (build ∷ []) today (pos (2 * hour))).0 today (pos 0) ≡ 1
unfolding time_sub
desired_replicas_keeps_example =
    desired_replicas_keeps busy today (pos (2 * hour)) (pos 0) [] build [] refl refl

cold : tier_warm ≢ tier_hot
unfolding bytes_eq
cold e = let wrong : false ≡ true = ap (bytes_eq tier_hot) e in absurd (cc wrong)

abbrev clock : HoldClock
clock = record { at_stamp = today; at_youngest = today; at_held = today }

abbrev later_clock : HoldClock
later_clock = record { at_stamp = 103 * hour; at_youngest = 103 * hour; at_held = 103 * hour }

abbrev no_pods : Read (List Pod)
no_pods = found []

two_hours : max_build_age settings ≡ pos (2 * hour)
unfolding max_build_age
two_hours = refl

holds : hold_roll settings no_pods clock absent build [] ≡ (true, at 360000)
unfolding hold_roll held_since daemon_failure pods_failure max_build_age time_sub
holds = refl

grown : (held_since absent clock.at_stamp).0 + 2 * hour < later_clock.at_held
unfolding held_since
grown = omega arith

hold_roll_bounded_example :
    (hold_roll settings no_pods later_clock (at 360000) (record build { since = 102 * hour }) []).0
    ≡ false
hold_roll_bounded_example =
    hold_roll_bounded settings no_pods no_pods clock later_clock absent (at 360000) (2 * hour) build
      (record build { since = 102 * hour }) [] [] two_hours (omega arith) holds grown

abbrev serving : StatefulSet
serving = record {
  replicas = some 1;
  template = text "old";
  hash = text "1";
  roll_held_since = absent;
}

abbrev wanted : Want
wanted = record { template = text "new"; hash = text "2" }

abbrev answers : StsAnswers
answers = record {
  owner = none;
  existing = found serving;
  fresh = found busy;
  fresh_now = today;
  pods = no_pods;
  clock = clock;
  created = done;
  patched = done;
}

ensure_stateful_set-IsCareful_example :
    All
      (IsCareful settings wanted answers serving (build ∷ []) (2 * hour) two_hours (omega arith))
      (ensure_stateful_set settings wanted answers 1 (build ∷ [])).log
ensure_stateful_set-IsCareful_example =
    ensure_stateful_set-IsCareful settings wanted answers serving 1 (build ∷ []) (2 * hour)
      two_hours (omega arith) refl
