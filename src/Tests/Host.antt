-- ===== src/Tests/Host.antt =====
-- Inputs for the theorems on the single host and on the contract of the backends.
use buildkit_operator.Base.{
  ℕ, ◌+◌, ◌*◌, ◌/◌, ◌&&◌, ltb, refl, inr, Bool, true, false, pos, Option, none, some, [], ◌∷◌, All,
  Bytes, text, bytes_eq, time_add, second, lookup, arith,
}
use buildkit_operator.Router.{fork_key}
use buildkit_operator.Api.Types.{BuildProject, BuildProjectSpec}
use buildkit_operator.Api.Defaults.{apply_defaults}
use buildkit_operator.Controller.Effects.{not_found}
use buildkit_operator.Buildd.{RouteRequest, accepted}
use buildkit_operator.Buildd.Route.{RouteAnswers, handle_route, routed_key}
use buildkit_operator.Provisioner.Retry.{got}
use buildkit_operator.Provisioner.Kube.{s3_cache_decision}
use buildkit_operator.Provisioner.Kube.Projects.{Config}
use buildkit_operator.Provisioner.Local.{
  ProjectState, Projects, bare_spec, new_state, s3_decision_local, instance_ip,
}
use buildkit_operator.Provisioner.Local.Instances.{HostConfig, HostAnswers, ensure_local}
use buildkit_operator.Provisioner.Local.Instances.Isolated.{IsIsolated, ensure_local-IsIsolated}
use buildkit_operator.Provisioner.Local.Lifecycle.{Pace, SnapshotAnswers, reconcile_local}
use buildkit_operator.Provisioner.Local.Lifecycle.Idle.{IsSound, reconcile_local-IsSound}
use buildkit_operator.Provisioner.Local.Waiting.{
  Round, EndsLocal, wait_ready_local, wait_ready_local-Ends,
}
use buildkit_operator.Provisioner.Local.Cadence.{Agrees, only_attempt, s3_decision_local-Agrees}
use buildkit_operator.Provisioner.Contract.Cluster.{ensure_on}
use buildkit_operator.Provisioner.Contract.Cluster.Forks.{IsForked, ensure_on-IsForked}
use buildkit_operator.Provisioner.Contract.Cluster.Creates.{cluster_backend}
use buildkit_operator.Provisioner.Contract.Routed.{Serves, handle_route-Serves}

abbrev plain : Bytes → Bytes
plain s = s

abbrev spec : BuildProjectSpec
spec = record (bare_spec (text "p01")) { repo = text "github.com/org/x" }

abbrev host : HostConfig
host = record {
  pool = text "tank/bko/";
  image = text "images:debian/12";
  vm_image = text "images:debian/12/vm";
  mount_path = text "/var/lib/buildkit";
  certs_host_path = [];
  fork_egress_strict = true;
}

-- Nothing is there yet, and each call succeeds.
abbrev fresh : HostAnswers
fresh = record {
  exists = some false;
  running = some false;
  started = true;
  snapshots = some [];
  cloned = true;
  dataset_made = true;
  launched = true;
}

abbrev state : ProjectState
state = record (new_state spec false false) {
  last_build = 50;
  last_snap = text "tank/bko/p01@bko-1";
  last_cache_export = 40;
}

abbrev projects : Projects
projects = (text "p01", state) ∷ []

ensure_local-IsIsolated_example :
    IsIsolated host
      (fork_key spec.key)
      (text "p01")
      projects
      (ensure_local host spec true fresh projects)
unfolding fork_key bytes_eq
ensure_local-IsIsolated_example = ensure_local-IsIsolated host spec fresh projects (text "p01") refl

abbrev knobs : Pace
knobs = record {
  idle_timeout = pos 100;
  snapshot_every = pos 100;
  keep_snapshots = pos 1;
  max_build_seconds = pos 3600;
}

abbrev listed : Bytes → SnapshotAnswers
listed key = record {
  taken = true;
  listed = some (text "tank/bko/p01@bko-1" ∷ text "tank/bko/p01@bko-2" ∷ []);
}

reconcile_local-IsSound_example :
    All
      (IsSound host knobs 1000 listed projects)
      (reconcile_local host knobs 1000 (λ name. some true) listed (λ key m. m) projects).log
reconcile_local-IsSound_example =
    reconcile_local-IsSound host knobs 1000 (λ name. some true) listed (λ key m. m) projects

-- The daemon is up from the third round on.
abbrev rounds : ℕ → Round
rounds i = record {
  answers = record {
    running = some true;
    ip = some (text "10.0.0.7");
    dials = λ addr. ltb 1 i && bytes_eq addr (text "10.0.0.7:1234");
  };
  now = 50 + i * second;
  cancelled = false;
}

wait_ready_local-Ends_example :
    EndsLocal instance_ip (pos 1234) (text "p01") rounds (time_add 50 (pos 60000000000)) projects (
      wait_ready_local instance_ip
        (pos 1234)
        (text "p01")
        (pos 60000000000)
        (60000000000 / second + 2)
        50
        rounds
        projects)
unfolding lookup bytes_eq
wait_ready_local-Ends_example =
    wait_ready_local-Ends instance_ip (pos 1234) (text "p01") 60000000000 50 rounds projects
      (state, refl) (λ i. omega arith)

abbrev object : BuildProject
object = record {
  name = text "p01";
  creation_timestamp = 1;
  spec = spec;
  status = record {
    phase = text "Ready";
    replicas = pos 1;
    endpoint = [];
    last_build_time = some 50;
    recent_build_times = [];
    last_snapshot = [];
    inflight = [];
    inflight_builds = pos 0;
    last_cache_export_grant = some 40;
  };
}

s3_decision_local-Agrees_example :
    Agrees
      (text "p01")
      state
      object
      130
      projects
      (s3_decision_local (text "p01") (pos 60) true 120 130 projects)
      (s3_cache_decision (got object) (pos 60) true (only_attempt object 120 130) [])
unfolding lookup bytes_eq apply_defaults
s3_decision_local-Agrees_example =
    s3_decision_local-Agrees (text "p01") state object (pos 60) true 120 130 projects refl refl
      (refl, omega arith) (inr (inr refl))

abbrev kube : Config
kube = record {
  namespace = text "builds";
  port = pos 1234;
  wait = pos 60000000000;
  gateway_host = [];
  gateway_port = pos 0;
  default_storage_class = text "fast";
}

abbrev request : RouteRequest
request = record {
  repo = text "github.com/org/x";
  name = [];
  target = text "default";
  arch = text "amd64";
  untrusted = false;
}

abbrev plain_match : Bytes → Bytes → Option Bool
plain_match p s = some (bytes_eq p s)

-- The daemon does not come up in time.
abbrev slow : RouteAnswers
slow = record { ensured = none; ready = false; has_slot = true; waited = some not_found }

handle_route-Serves_example :
    Serves plain 7
      (cluster_backend plain 7 kube (pos 3600000000000))
      (text "b")
      (routed_key plain plain_match none request)
      []
      (handle_route plain plain_match none (accepted request) (text "b") slow)
unfolding lookup
handle_route-Serves_example =
    handle_route-Serves plain 7 (cluster_backend plain 7 kube (pos 3600000000000)) plain_match none
      request (text "b") slow [] (routed_key plain plain_match none request) refl (omega arith) tt

ensure_on-IsForked_example :
    IsForked 7 kube
      (pos 3600000000000)
      plain
      spec
      ((text "p01", object) ∷ [])
      (ensure_on plain 7 kube (pos 3600000000000) spec true ((text "p01", object) ∷ []))
ensure_on-IsForked_example =
    ensure_on-IsForked 7 kube (pos 3600000000000) plain spec ((text "p01", object) ∷ [])
