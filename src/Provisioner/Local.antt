-- ===== src/Provisioner/Local.antt =====
-- internal/provisioner/local/local.go: the projects that a single host keeps in memory, and the operations on
-- them. The answers of the host are arguments.
pub mod Instances
pub mod Lifecycle
pub mod Waiting
pub mod Cadence
use buildkit_operator.Base.{
  ℕ, ◌≡◌, Bool, true, false, ◌&&◌, not, ltb, ◌==◌, if◌then◌else◌, ℤ, pos, leb_ℤ, ltb_ℤ, Option,
  none, some, List, [], ◌∷◌, ◌++◌, is_empty, Bytes, text, bytes_eq, Time, Duration, time_sub, Dict,
  lookup, insert, itoa,
}
use buildkit_operator.Router.{daemon_name, endpoint_host}
use buildkit_operator.Api.Types.{
  InflightBuild, BuildProjectSpec, tier_hot, s3_cache_cadence, s3_cache_always, s3_cache_never,
}
use buildkit_operator.Api.Defaults.{apply_defaults}
use buildkit_operator.Api.Inflight.{start_inflight, end_inflight}

-- `projectState`; the zero time is 0.
pub record ProjectState : Type 0 where
  pub spec : BuildProjectSpec
  pub vm : Bool
  pub hot : Bool
  pub inflight : List InflightBuild
  pub last_build : Time
  pub ip : Bytes
  pub last_snap : Bytes
  pub last_snap_at : Time
  pub last_cache_export : Time

-- `Provisioner.projects`.
abbrev pub Projects : Type 0
Projects = Dict ProjectState

-- The spec of which only the key is set.
abbrev pub bare_spec : Bytes → BuildProjectSpec
bare_spec key = record {
  key = key;
  repo = [];
  name = [];
  target = [];
  arch = [];
  storage_class = [];
  cache_volume_gi = pos 0;
  tier = [];
  idle_timeout_sec = pos 0;
  snapshot_every_sec = pos 0;
  restore_from_snapshot = [];
  fanout = pos 0;
  s3_cache_policy = [];
  security_profile = [];
  resources = [];
}

-- A state of which the spec, the isolation and the heat are set.
abbrev pub new_state : BuildProjectSpec → Bool → Bool → ProjectState
new_state spec vm hot = record {
  spec = spec;
  vm = vm;
  hot = hot;
  inflight = [];
  last_build = 0;
  ip = [];
  last_snap = [];
  last_snap_at = 0;
  last_cache_export = 0;
}

-- `stateFor`: the state, and the projects with one in it.
unfoldable pub state_for : Bytes → Projects → ProjectState × Projects
state_for key m = elim (lookup key m) [
  | some st ↦ (st, m)
  | none ↦ let st = new_state (bare_spec key) false false in (st, insert key st m)
]

-- The state that `ensureInstance` begins with: a new one, a healed one, or the one that is there.
unfoldable pub register : BuildProjectSpec → Bool → Projects → Projects
register spec vm m =
    let is_hot = bytes_eq spec.tier tier_hot in
    elim (lookup spec.key m) [
      | none ↦ insert spec.key (new_state spec vm is_hot) m
      | some st ↦
          if is_empty st.spec.repo
          then insert spec.key (record st { spec = spec; hot = is_hot }) m
          else m
    ]

module _ (sha256 : Bytes → Bytes) where
  -- `StartInflight`; the clock is read for the entry and for the stamp.
  unfoldable pub start_local : Bytes → Bytes → Time → Time → Projects → Projects
  start_local key id now stamp m =
      let (st, m') = state_for key m in
      insert key
        (record st { inflight = start_inflight sha256 st.inflight id now; last_build = stamp }) m'

  -- `EndInflight`.
  unfoldable pub end_local : Bytes → Bytes → Time → Projects → Projects × Bool
  end_local key id stamp m =
      let (st, m') = state_for key m in
      let (entries, found) = end_inflight sha256 st.inflight id in
      if not found
      then (m', false)
      else (insert key (record st { inflight = entries; last_build = stamp }) m', true)

-- `Touch`.
unfoldable pub touch_local : Bytes → Time → Projects → Projects
touch_local key stamp m =
    let (st, m') = state_for key m in insert key (record st { last_build = stamp }) m'

-- `ProjectRepo`.
unfoldable pub project_repo_local : Bytes → Projects → Option Bytes
project_repo_local key m = elim (lookup key m) [ none ↦ none | some st ↦ some st.spec.repo ]

-- `setIP`.
unfoldable pub set_ip : Bytes → Bytes → Projects → Projects
set_ip key ip m = elim (lookup key m) [ none ↦ m | some st ↦ insert key (record st { ip = ip }) m ]

-- Has the last export been less than an interval ago?
abbrev pub exported_within : Duration → Time → Time → Bool
exported_within interval last now = not (last == 0) && ltb_ℤ (time_sub now last) interval

-- The cadence of `S3CacheDecision`, for a state that is there or not.
unfoldable pub cadence_local :
    Bytes → Duration → Bool → Time → Time → Option ProjectState → Projects → Projects × Bool × Bool
cadence_local key interval grant_export now stamp state m =
    if not grant_export
    then (m, true, false)
    else if leb_ℤ interval (pos 0)
    then (m, true, true)
    else elim state [
      | none ↦ (m, true, false)
      | some st ↦
          if exported_within interval st.last_cache_export now
          then (m, true, false)
          else (insert key (record st { last_cache_export = stamp }) m, true, true)
    ]

-- `S3CacheDecision`: the projects, whether the build imports, and whether it exports.
unfoldable pub s3_decision_local :
    Bytes → Duration → Bool → Time → Time → Projects → Projects × Bool × Bool
s3_decision_local key interval grant_export now stamp m =
    let state = lookup key m in
    let policy : Bytes = elim state [
      | none ↦ s3_cache_cadence
      | some st ↦ (apply_defaults st.spec).s3_cache_policy
    ] in
    if bytes_eq policy s3_cache_never
    then (m, false, false)
    else if bytes_eq policy s3_cache_always
    then (m, true, true)
    else cadence_local key interval grant_export now stamp state m

-- How a daemon's address is found: by the runtime, by a domain, or by the instance's own address.
pub data Addressing : Type 0 where
  resolver : (Bytes → Bytes) → Addressing
  domain : Bytes → Addressing
  instance_ip : Addressing

-- `net.JoinHostPort` of a name or an IPv4 address.
abbrev pub join_host_port : Bytes → ℤ → Bytes
join_host_port host port = host ++ (text ":" ++ itoa port)

-- `Endpoint`.
unfoldable pub endpoint_local : Addressing → ℤ → Bytes → Projects → Bytes
endpoint_local (resolver addr) port key m = text "tcp://" ++ addr key
endpoint_local (domain d) port key m = endpoint_host (daemon_name key ++ (text "." ++ d)) port
endpoint_local instance_ip port key m =
    endpoint_host (elim (lookup key m) [ none ↦ [] | some st ↦ st.ip ]) port

-- What `Ready` is answered: is the instance running, its address, and does the daemon listen there?
pub record ReadyAnswers : Type 0 where
  pub running : Option Bool
  pub ip : Option Bytes
  pub dials : Bytes → Bool

-- `Ready`, with the address that it keeps for `Endpoint`.
unfoldable pub ready_local : Addressing → ℤ → Bytes → ReadyAnswers → Projects → Projects × Bool
ready_local how port key a m = elim a.running [
  | none ↦ (m, false)
  | some false ↦ (m, false)
  | some true ↦ elim how [
    | resolver addr ↦ (m, a.dials (addr key))
    | domain d ↦ (m, a.dials (join_host_port (daemon_name key ++ (text "." ++ d)) port))
    | instance_ip ↦ elim a.ip [
      | none ↦ (m, false)
      | some ip ↦
          if is_empty ip then (m, false) else (set_ip key ip m, a.dials (join_host_port ip port))
    ]
  ]
]
