-- ===== src/Provisioner/Kube.antt =====
-- internal/provisioner/k8s/k8s.go: status writes for a routed build, its end and a touch, the grant of cache
-- exports. The answers of the API are arguments.
pub mod Touched
pub mod Builds
pub mod Grants
pub mod Elected
pub mod Projects
pub mod Isolation
use buildkit_operator.Base.{
  ℕ, ◌+◌, ◌-◌, ◌≡◌, Bool, true, false, ◌&&◌, not, if◌then◌else◌, ℤ, pos, negsuc, leb_ℤ, ltb_ℤ,
  eqb_ℤ, Option, none, some, List, [], ◌∷◌, ◌++◌, Bytes, bytes_eq, Time, Duration, time_sub,
  time_add,
}
use buildkit_operator.Router.{is_fork_key}
use buildkit_operator.Api.Types.{
  InflightBuild, BuildProject, BuildProjectStatus, s3_cache_cadence, s3_cache_always,
  s3_cache_never,
}
use buildkit_operator.Api.Inflight.{
  adopt_legacy_inflight, expire_inflight, set_inflight, start_inflight, end_inflight_before,
}
use buildkit_operator.Api.Adaptive.{record_build_time}
use buildkit_operator.Api.Defaults.{apply_defaults}
use buildkit_operator.Provisioner.Retry.{
  Fault, Answer, got, failed, is_conflict, retriable_status_err, Tried, retried,
}

-- A write of the status, and the error of its answer.
pub record Update : Type 0 where
  pub status : BuildProjectStatus
  pub refused : Option Fault

-- One attempt of `touchStatus`: the answers to its read and its write, and the clock.
pub record Attempt : Type 0 where
  pub current : Answer BuildProject
  pub now : Time
  pub updated : Option Fault

-- The function that `touchStatus` applies: the new status, and whether it changed anything.
abbrev pub Mutation : Type 0
Mutation = BuildProjectStatus → Time → BuildProjectStatus × Bool

-- The stamp and the write, or neither.
unfoldable pub write_back : BuildProjectStatus × Bool → Attempt → Tried Bool Update
write_back (st, false) a = record { state = false; log = []; error = none }
write_back (st, true) a = record {
  state = true;
  log = record { status = record st { last_build_time = some a.now }; refused = a.updated } ∷ [];
  error = a.updated;
}

-- The function that `touchStatus` hands to `retry.OnError`; it captures `applied`.
unfoldable pub touch_attempt : Mutation → Bool → Attempt → Tried Bool Update
touch_attempt mutate applied a = elim a.current [
  | failed f ↦ record { state = applied; log = []; error = some f }
  | got bp ↦ write_back (mutate bp.status a.now) a
]

-- `touchStatus`, over the attempts that are made: was the change applied, and the writes.
unfoldable pub touch_status : Mutation → Attempt → List Attempt → Bool × List Update
touch_status mutate a as' =
    let t = retried (touch_attempt mutate) false a as' in
    elim t.error [ some f ↦ (false, t.log) | none ↦ (t.state, t.log) ]

-- Which errors `touchStatus` retries, by `retryMissing`.
unfoldable pub retriable_touch : Bool → Fault → Bool
unfolding retriable_status_err
retriable_touch true f = retriable_status_err f
retriable_touch false f = is_conflict f

-- `live`: the status with a bare count adopted, and its entries without those that have expired.
unfoldable pub live_entries :
    Duration → BuildProjectStatus → Time → BuildProjectStatus × List InflightBuild
live_entries max_build st now =
    let adopted = (adopt_legacy_inflight st).0 in
    if leb_ℤ max_build (pos 0)
    then (adopted, adopted.inflight)
    else (adopted, (expire_inflight adopted.inflight now max_build).0)

-- `now.Time.Add(-p.maxBuild)`.
abbrev pub cutoff : Duration → Time → Time
cutoff (pos n) now = now - n
cutoff (negsuc n) now = now + (n + 1)

module _ (sha256 : Bytes → Bytes) (max_build : Duration) where
  -- The change of `StartInflight`.
  unfoldable pub start_build : Bytes → Bytes → Mutation
  start_build key id st now =
      let (adopted, live) = live_entries max_build st now in
      let counted = set_inflight (start_inflight sha256 live id now) adopted in
      if is_fork_key key then (counted, true) else (
        record counted { recent_build_times = record_build_time counted.recent_build_times now },
        true,
      )

  -- The change of `EndInflight`.
  unfoldable pub end_build : Bytes → Mutation
  end_build id st now =
      let (adopted, live) = live_entries max_build st now in
      let (entries, found) = end_inflight_before sha256 live id (cutoff max_build now) in
      if found then (set_inflight entries adopted, true) else (adopted, false)

  -- `StartInflight`.
  unfoldable pub start_inflight_build : Bytes → Bytes → Attempt → List Attempt → Bool × List Update
  start_inflight_build key id = touch_status (start_build key id)

  -- `EndInflight`.
  unfoldable pub end_inflight_build : Bytes → Attempt → List Attempt → Bool × List Update
  end_inflight_build id = touch_status (end_build id)

-- `Touch`.
unfoldable pub touch : Attempt → List Attempt → Bool × List Update
touch = touch_status (λ st now. (st, true))

-- One attempt of the grant; the clock is read for the test and for the stamp.
pub record GrantAttempt : Type 0 where
  pub current : Answer BuildProject
  pub since_now : Time
  pub now : Time
  pub updated : Option Fault

-- Has the last grant been less than an interval ago?
unfoldable pub is_within : Duration → Option Time → Time → Bool
is_within interval none now = false
is_within interval (some last) now = ltb_ℤ (time_sub now last) interval

-- The stamp of a grant.
unfoldable pub stamp_grant : BuildProjectStatus → Bool → GrantAttempt → Tried Bool Update
stamp_grant st granted a = record {
  state = elim a.updated [ none ↦ true | some f ↦ granted ];
  log =
      record { status = record st { last_cache_export_grant = some a.now }; refused = a.updated }
      ∷ [];
  error = a.updated;
}

-- The function of the second `retry.OnError` of `S3CacheDecision`; it captures `granted`.
unfoldable pub grant_attempt : Duration → Bool → GrantAttempt → Tried Bool Update
grant_attempt interval granted a = elim a.current [
  | failed f ↦ record { state = granted; log = []; error = some f }
  | got cur ↦
      let policy = (apply_defaults cur.spec).s3_cache_policy in
      if not (bytes_eq policy s3_cache_cadence)
      then record { state = bytes_eq policy s3_cache_always; log = []; error = none }
      else if is_within interval cur.status.last_cache_export_grant a.since_now
      then record { state = false; log = []; error = none }
      else stamp_grant cur.status granted a
]

-- What a build may do with the cold cache, and the writes that were asked for.
pub record Decision : Type 0 where
  pub imports : Bool
  pub exports : Bool
  pub log : List Update

abbrev pub decided : Bool → Bool → Decision
decided imports exports = record { imports = imports; exports = exports; log = [] }

-- The cadence policy, with the grant over the attempts that are made.
unfoldable pub decide_cadence : Duration → Bool → GrantAttempt → List GrantAttempt → Decision
decide_cadence interval grant_export a as' =
    if not grant_export
    then decided true false
    else if leb_ℤ interval (pos 0)
    then decided true true
    else let t = retried (grant_attempt interval) false a as' in
      elim t.error [
        | some f ↦ record { imports = true; exports = false; log = t.log }
        | none ↦ record { imports = true; exports = t.state; log = t.log }
      ]

-- `S3CacheDecision`; `first` is what the first `retry.OnError` ends in.
unfoldable pub s3_cache_decision :
    Answer BuildProject → Duration → Bool → GrantAttempt → List GrantAttempt → Decision
s3_cache_decision (failed f) interval grant_export a as' = decided true true
s3_cache_decision (got bp) interval grant_export a as' =
    let policy = (apply_defaults bp.spec).s3_cache_policy in
    if bytes_eq policy s3_cache_never
    then decided false false
    else if bytes_eq policy s3_cache_always
    then decided true true
    else decide_cadence interval grant_export a as'
