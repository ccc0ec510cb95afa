-- ===== src/Provisioner/Local/Lifecycle.antt =====
-- `Reconcile` and `snapshot` of internal/provisioner/local/local.go: expiry, scale-to-zero, and durability
-- snapshots with their retention.
pub mod Idle
use buildkit_operator.Base.{
  ℕ, zero, suc, ◌-◌, ◌*◌, ◌/◌, ◌<◌, Bool, true, false, ◌&&◌, not, ltb, ◌==◌, if◌then◌else◌, ℤ, pos,
  ltb_ℤ, Option, none, some, List, [], ◌∷◌, ◌++◌, length, take, is_empty, Bytes, text, Time,
  Duration, time_sub, second, seconds, Dict, lookup, insert, map_values, itoa, sub_ℕ, negsuc,
}
use buildkit_operator.Router.{daemon_name, is_fork_key}
use buildkit_operator.Api.Inflight.{expire_inflight}
use buildkit_operator.Provisioner.Local.{ProjectState, Projects}
use buildkit_operator.Provisioner.Local.Instances.{
  HostConfig, HostCall, stop, snapshot, destroy_snapshot, dataset,
}

-- The knobs of the loop.
pub record Pace : Type 0 where
  pub idle_timeout : Duration
  pub snapshot_every : Duration
  pub keep_snapshots : ℤ
  pub max_build_seconds : ℤ

-- A state without the entries that have outlived the safety net.
unfoldable pub expire_state : Pace → Time → ProjectState → ProjectState
expire_state p now st =
    if ltb_ℤ (pos 0) p.max_build_seconds
    then record st { inflight = (expire_inflight st.inflight now (seconds p.max_build_seconds)).0 }
    else st

-- Is the project scaled to zero?
unfoldable pub is_idle : Pace → Time → ProjectState → Bool
is_idle p now st =
    not st.hot
    && not (ltb 0 (length st.inflight))
    && not (st.last_build == 0)
    && ltb_ℤ p.idle_timeout (time_sub now st.last_build)

-- Is a snapshot of the project due?
unfoldable pub is_snapshot_due : Pace → Time → Bytes → ProjectState → Bool
is_snapshot_due p now key st =
    ltb_ℤ (pos 0) p.snapshot_every
    && not (is_fork_key key)
    && not st.hot
    && not (st.last_build == 0)
    && ltb_ℤ p.snapshot_every (time_sub now st.last_snap_at)

-- What the pass under the lock finds: the projects after expiry, and the keys to act on.
pub record Scan : Type 0 where
  pub projects : Projects
  pub idle : List Bytes
  pub due : List Bytes

unfoldable pub scan : Pace → Time → Projects → Scan
scan p now [] = record { projects = []; idle = []; due = [] }
scan p now ((key, st) ∷ m) =
    let st' = expire_state p now st in
    let rest = scan p now m in
    record {
      projects = (key, st') ∷ rest.projects;
      idle = if is_idle p now st' then key ∷ rest.idle else rest.idle;
      due = if is_snapshot_due p now key st' then key ∷ rest.due else rest.due;
    }

-- The instances of the idle keys are stopped, those of them that run.
unfoldable pub stop_idle : (Bytes → Option Bool) → List Bytes → List HostCall
stop_idle running [] = []
stop_idle running (key ∷ keys) =
    let rest = stop_idle running keys in
    elim (running (daemon_name key)) [
      | some true ↦ stop (daemon_name key) ∷ rest
      | some false ↦ rest
      | none ↦ rest
    ]

-- What the host answers to a snapshot and to the list behind it.
pub record SnapshotAnswers : Type 0 where
  pub taken : Bool
  pub listed : Option (List Bytes)

abbrev pub destroyed : List Bytes → List HostCall
destroyed [] = []
destroyed (s ∷ ss) = destroy_snapshot s ∷ destroyed ss

-- The snapshots to prune: all but the newest `keep`, for a list from the oldest to the newest.
unfoldable pub prune : ℤ → List Bytes → List HostCall
prune (pos zero) snaps = []
prune (pos (suc n)) snaps = destroyed (take (length snaps - suc n) snaps)
prune (negsuc n) snaps = []

-- The seconds from the year 1 to the epoch of Unix.
abbrev pub unix_offset : ℕ
unix_offset = 62_135_596_800

-- The name of a snapshot, by `now.Unix()`.
unfoldable pub local_snapshot_name : Time → Bytes
local_snapshot_name now = text "bko-" ++ itoa (sub_ℕ (now / second) unix_offset)

-- The note of a snapshot in the state of its project.
unfoldable pub note_snapshot : Bytes → Bytes → Time → Projects → Projects
note_snapshot key full now m = elim (lookup key m) [
  | none ↦ m
  | some st ↦ insert key (record st { last_snap = full; last_snap_at = now }) m
]

-- The host calls of one pass so far, and the projects.
pub record Passed : Type 0 where
  pub log : List HostCall
  pub projects : Projects

-- `snapshot`; a failure to destroy one is only logged.
unfoldable pub snapshot_local :
    HostConfig → Pace → Bytes → Time → SnapshotAnswers → Projects → Passed
unfolding prune note_snapshot
snapshot_local c p key now a m =
    let name = local_snapshot_name now in
    let set = dataset c key in
    let full = set ++ (text "@" ++ name) in
    if not a.taken then record { log = snapshot set name ∷ []; projects = m } else record {
      log =
          snapshot set name
          ∷ elim a.listed [ none ↦ [] | some snaps ↦ prune p.keep_snapshots snaps ];
      projects = note_snapshot key full now m;
    }

-- The snapshots of the keys that are due; `meanwhile` is what other requests do to the projects before
-- each.
unfoldable pub snapshot_all :
    HostConfig
    → Pace
    → Time
    → (Bytes → SnapshotAnswers)
    → (Bytes → Projects → Projects)
    → List Bytes
    → Projects
    → Passed
snapshot_all c p now answers meanwhile [] m = record { log = []; projects = m }
snapshot_all c p now answers meanwhile (key ∷ keys) m =
    let one = snapshot_local c p key now (answers key) (meanwhile key m) in
    let rest = snapshot_all c p now answers meanwhile keys one.projects in
    record { log = one.log ++ rest.log; projects = rest.projects }

-- `Reconcile`: the pass under the lock, the stops, the snapshots.
unfoldable pub reconcile_local :
    HostConfig
    → Pace
    → Time
    → (Bytes → Option Bool)
    → (Bytes → SnapshotAnswers)
    → (Bytes → Projects → Projects)
    → Projects
    → Passed
reconcile_local c p now running answers meanwhile m =
    let s = scan p now m in
    let shot = snapshot_all c p now answers meanwhile s.due s.projects in
    record { log = stop_idle running s.idle ++ shot.log; projects = shot.projects }

-- The period of the ticker of `Run`: a quarter of the timeout, and at least five seconds.
unfoldable pub run_interval : Duration → Duration
run_interval (pos n) =
    let quarter = n / 4 in pos (if ltb quarter (5 * second) then 5 * second else quarter)
run_interval (negsuc n) = pos (5 * second)
