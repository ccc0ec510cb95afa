-- ===== src/Provisioner/Contract/Cluster.antt =====
-- internal/provisioner/k8s/k8s.go over an API that accepts each write at the first attempt: the objects are the
-- state.
pub mod Entries
pub mod Lawful
pub mod Creates
pub mod Forks
use buildkit_operator.Base.{
  Bool, true, false, if◌then◌else◌, pos, Option, none, some, List, [], ◌∷◌, Bytes, Time, Duration,
  Dict, lookup, insert,
}
use buildkit_operator.Router.{fork_key}
use buildkit_operator.Api.Types.{InflightBuild, BuildProject, BuildProjectSpec, BuildProjectStatus}
use buildkit_operator.Provisioner.Retry.{Fault, Answer, got, failed, absent}
use buildkit_operator.Provisioner.Kube.{
  Update, Attempt, live_entries, start_inflight_build, end_inflight_build, touch,
}
use buildkit_operator.Provisioner.Kube.Projects.{Config, Creation, create, stamp, Ensured, ensure}

abbrev pub Objects : Type 0
Objects = Dict BuildProject

abbrev pub read_of : Option BuildProject → Answer BuildProject
read_of none = failed absent
read_of (some bp) = got bp

-- The status of an object that was just created.
abbrev pub no_status : BuildProjectStatus
no_status = record {
  phase = [];
  replicas = pos 0;
  endpoint = [];
  last_build_time = none;
  recent_build_times = [];
  last_snapshot = [];
  inflight = [];
  inflight_builds = pos 0;
  last_cache_export_grant = none;
}

-- A write of the status of an object that is there.
unfoldable pub put_status : Bytes → BuildProjectStatus → Objects → Objects
put_status key st s = elim (lookup key s) [
  | none ↦ s
  | some bp ↦ insert key (record bp { status = st }) s
]

-- The writes that were asked for take effect, but for those that were refused.
unfoldable pub stored : Bytes → List Update → Objects → Objects
unfolding put_status
stored key [] s = s
stored key (u ∷ us) s =
    stored key us (elim u.refused [ none ↦ put_status key u.status s | some f ↦ s ])

-- A create makes the object, and a stamp writes its status.
unfoldable pub created : Time → List Creation → Objects → Objects
created now [] s = s
created now (create spec ∷ log) s = created now log (
    insert spec.key
      (record { name = spec.key; creation_timestamp = now; spec = spec; status = no_status }) s)
created now (stamp key at ∷ log) s = created now log (elim (lookup key s) [
  | none ↦ s
  | some bp ↦ insert key (record bp { status = record bp.status { last_build_time = some at } }) s
])

module _ (sha256 : Bytes → Bytes) (now : Time) (c : Config) (max_build : Duration) where
  -- The builds of a project that have not expired.
  abbrev pub running_of : Option BuildProject → List InflightBuild
  running_of none = []
  running_of (some bp) = (live_entries max_build bp.status now).1

  abbrev pub running : Bytes → Objects → List InflightBuild
  running key s = running_of (lookup key s)

  abbrev pub attempt_on : Bytes → Objects → Attempt
  attempt_on key s = record { current = read_of (lookup key s); now = now; updated = none }

  unfoldable pub begin_on : Bytes → Bytes → Objects → Objects
  begin_on key id s =
      stored key (start_inflight_build sha256 max_build key id (attempt_on key s) []).1 s

  unfoldable pub release_on : Bytes → Bytes → Objects → Objects × Bool
  release_on key id s =
      let r = end_inflight_build sha256 max_build id (attempt_on key s) [] in
      (stored key r.1 s, r.0)

  unfoldable pub stamp_on : Bytes → Objects → Objects
  stamp_on key s = stored key (touch (attempt_on key s) []).1 s

  -- The key that `Ensure` makes a project of.
  abbrev pub ensured_key : BuildProjectSpec → Bool → Bytes
  ensured_key spec untrusted = if untrusted then fork_key spec.key else spec.key

  unfoldable pub ensure_on : BuildProjectSpec → Bool → Objects → Objects
  ensure_on spec untrusted s =
      let r = ensure c spec untrusted (record {
        canonical = read_of (lookup spec.key s);
        existing = read_of (lookup (ensured_key spec untrusted) s);
        created = none;
        now = now;
      }) in
      created now r.log s
