-- ===== src/Controller/Autogrow.antt =====
-- internal/controller/autogrow.go: cache volumes that fill up grow within a bound, and an idle daemon is
-- bounced to apply a resize. Floating-point numbers are a parameter.
pub mod Gate
pub mod Growth
use buildkit_operator.Base.{
  ℕ, ◌+◌, ◌*◌, ◌/◌, ◌^◌, ◌%◌, ◌≡◌, Bool, true, false, ◌||◌, ◌&&◌, not, ltb, ◌==◌, if◌then◌else◌, ℤ,
  pos, negsuc, leb_ℤ, ltb_ℤ, eqb_ℤ, wrap32, Option, none, some, List, [], ◌∷◌, ◌++◌, Bytes, text,
  bytes_eq, is_empty, Time, Duration, minute, time_sub,
}
use buildkit_operator.Api.Types.{BuildProject}
use buildkit_operator.Api.Inflight.{inflight_count}
use buildkit_operator.Router.{cache_pvc_name, daemon_name, is_fork_key}
use buildkit_operator.Controller.Effects.{
  Error, not_found, Read, found, missing, unreadable, Written, done, gone, refused, Result, ok, err,
  Run, return, fail, write, write_ignoring_gone, ◌>>=◌,
}
use buildkit_operator.Controller.Elasticity.{Settings}
use buildkit_operator.Controller.Inflight.{fresh_inflight}

abbrev pub auto_grow_probe_interval : Duration
auto_grow_probe_interval = pos (10 * minute)

abbrev pub auto_grow_bounce_interval : Duration
auto_grow_bounce_interval = pos (15 * minute)

-- `probeGate.last`: the last action of each key, the latest entry first.
abbrev pub ProbeGate : Type 0
ProbeGate = List (Bytes × Time)

unfoldable pub last_action : ProbeGate → Bytes → Option Time
last_action [] key = none
last_action ((k, t) ∷ gate) key =
    let rest = last_action gate key in if bytes_eq k key then some t else rest

-- `allow`: is the action due, and the gate after the call.
unfoldable pub allow : ProbeGate → Bytes → Time → Duration → Bool × ProbeGate
allow gate key now interval = elim (last_action gate key) [
  | none ↦ (true, (key, now) ∷ gate)
  | some t ↦ if ltb_ℤ (time_sub now t) interval then (false, gate) else (true, (key, now) ∷ gate)
]

-- A claim on a cache volume: its request and its capacity in bytes, and its conditions by type and status.
pub record Pvc : Type 0 where
  pub name : Bytes
  pub request : ℤ
  pub capacity : ℤ
  pub conditions : List (Bytes × Bytes)

-- `giOf`: whole gibibytes, as an int32.
unfoldable pub gi_of : ℤ → ℤ
gi_of (pos n) = wrap32 (pos (n / 2 ^ 30))
gi_of (negsuc n) = wrap32 (negsuc (n / 2 ^ 30))

-- `resizePending`.
unfoldable pub has_pending : List (Bytes × Bytes) → Bool
has_pending [] = false
has_pending ((kind, status) ∷ cs) =
    (bytes_eq kind (text "FileSystemResizePending") && bytes_eq status (text "True"))
    || has_pending cs

unfoldable pub resize_pending : Pvc → Bool
resize_pending pvc = has_pending pvc.conditions

-- What the code uses of float64.
pub record FloatOps (F : Type 0) : Type 0 where
  pub of_int : ℤ → F
  pub times : F → F → F
  pub over : F → F → F
  pub below : F → F → Bool
  pub up_to : F → F → Bool
  pub ceil : F → F
  pub to_int : F → ℤ

-- An update carries the object that was read and the size that is put into it, in Gi.
pub data GrowAction : Type 0 where
  delete_pod : Bytes → GrowAction
  update_pvc : Pvc → ℤ → GrowAction
  update_spec : BuildProject → ℤ → GrowAction

-- One attempt of a loop of `retry.RetryOnConflict`: the answers to its read and its update.
pub record Attempt (A : Type 0) : Type 0 where
  pub current : Read A
  pub updated : Written

-- What the environment answers; the attempts are those that `RetryOnConflict` makes, and the result
-- of the last one is the loop's.
pub record GrowAnswers : Type 0 where
  pub pvc : Read Pvc
  pub at_bounce : Time
  pub fresh : Read BuildProject
  pub fresh_now : Time
  pub idle_pod : Read (Unit {0})
  pub pod_deleted : Written
  pub at_probe : Time
  pub pod : Read Bytes
  pub usage : Option (ℕ × ℕ)
  pub pvc_attempts : Attempt Pvc × List (Attempt Pvc)
  pub spec_attempts : Attempt BuildProject × List (Attempt BuildProject)

-- The two gates of the reconciler.
pub record Gates : Type 0 where
  pub bounce : ProbeGate
  pub probe : ProbeGate

module _ {A : Type 0} (body : Attempt A → Run GrowAction (Unit {0})) where
  -- The attempts in a row: all of their actions, and the result of the last.
  unfoldable pub retried : Attempt A → List (Attempt A) → Run GrowAction (Unit {0})
  retried a [] = body a
  retried a (b ∷ bs) = record {
    log = (body a).log ++ (retried b bs).log;
    result = (retried b bs).result;
  }

-- A `Get` whose `NotFound` is an error of the attempt.
abbrev pub reading :
    {A : Type 0} → Read A → (A → Run GrowAction (Unit {0})) → Run GrowAction (Unit {0})
reading (found a) f = f a
reading missing f = fail not_found
reading (unreadable e) f = fail e

-- The body of the loop that grows the volume.
unfoldable pub grow_pvc : ℤ → Attempt Pvc → Run GrowAction (Unit {0})
grow_pvc next a = reading a.current (λ cur.
    if leb_ℤ next (gi_of cur.request) then return tt else write (update_pvc cur next) a.updated tt)

-- The body of the loop of `recordSpecGi`.
unfoldable pub grow_spec : ℤ → Attempt BuildProject → Run GrowAction (Unit {0})
grow_spec gi a = reading a.current (λ cur.
    if leb_ℤ gi cur.spec.cache_volume_gi
    then return tt
    else write (update_spec cur gi) a.updated tt)

-- `recordSpecGi`.
unfoldable pub record_spec_gi : GrowAnswers → ℤ → Run GrowAction (Unit {0})
record_spec_gi a gi = retried (grow_spec gi) a.spec_attempts.0 a.spec_attempts.1

unfoldable pub pod_name : BuildProject → Bytes
pod_name bp = daemon_name bp.spec.key ++ text "-0"

-- The branch that applies a pending resize, by what the fresh read says.
unfoldable pub bounce_on : BuildProject → GrowAnswers → Result ℕ → Run GrowAction (Unit {0})
bounce_on bp a (err e) = fail e
bounce_on bp a (ok fresh) = if ltb 0 fresh then return tt else elim a.idle_pod [
  | found _ ↦ write_ignoring_gone (delete_pod (pod_name bp)) a.pod_deleted tt
  | missing ↦ return tt
  | unreadable e ↦ return tt
]

abbrev pub bounce_daemon : Settings → BuildProject → GrowAnswers → Run GrowAction (Unit {0})
bounce_daemon r bp a = bounce_on bp a (fresh_inflight r a.fresh a.fresh_now)

-- The larger of the size of the spec and the request of the volume.
abbrev pub current_gi : BuildProject → Pvc → ℤ
current_gi bp pvc =
    let req = gi_of pvc.request in
    if ltb_ℤ bp.spec.cache_volume_gi req then req else bp.spec.cache_volume_gi

module _ {F : Type 0} (ops : FloatOps F) where
  -- `autoGrowTarget`: the new size, or 0 for no change.
  unfoldable pub auto_grow_target : ℤ → F → ℤ → F → ℤ → ℤ
  auto_grow_target current used threshold factor limit =
      if leb_ℤ threshold (pos 0)
        || leb_ℤ limit (pos 0)
        || leb_ℤ current (pos 0)
        || leb_ℤ limit current
      then pos 0
      else if ops.below used (ops.of_int threshold)
      then pos 0
      else if ops.up_to factor (ops.of_int (pos 1))
      then pos 0
      else let grown = ops.ceil (ops.times (ops.of_int current) factor) in
        let next = if ops.below grown (ops.of_int limit) then ops.to_int grown else limit in
        if leb_ℤ next current then pos 0 else next

  -- `autoGrowFactor`; the default stands for the constant 1.5.
  unfoldable pub auto_grow_factor : F → F → F
  auto_grow_factor default factor =
      if ops.up_to factor (ops.of_int (pos 1)) then default else factor

  unfoldable pub used_percent : ℕ → ℕ → F
  used_percent used total =
      ops.times (ops.over (ops.of_int (pos used)) (ops.of_int (pos total))) (ops.of_int (pos 100))

  -- From the decision on: adopt a volume that was grown by hand, or grow.
  unfoldable pub apply_growth : BuildProject → Pvc → GrowAnswers → ℤ → Run GrowAction (Unit {0})
  apply_growth bp pvc a next =
      let req = gi_of pvc.request in
      if eqb_ℤ next (pos 0)
      then (if ltb_ℤ bp.spec.cache_volume_gi req then record_spec_gi a req else return tt)
      else if leb_ℤ next req
      then return tt
      else retried (grow_pvc next) a.pvc_attempts.0 a.pvc_attempts.1
        >>= (λ _. record_spec_gi a next)

  -- The decision from a measured usage; a probe that fails is only logged.
  unfoldable pub decide_growth :
      Settings
      → F
      → F
      → BuildProject
      → Pvc
      → GrowAnswers
      → Option (ℕ × ℕ)
      → Run GrowAction (Unit {0})
  decide_growth r default factor bp pvc a none = return tt
  decide_growth r default factor bp pvc a (some (used, total)) =
      if total == 0
      then return tt
      else apply_growth bp pvc a (
          auto_grow_target (current_gi bp pvc) (used_percent used total) r.auto_grow_threshold_pct
            (auto_grow_factor default factor) (wrap32 r.auto_grow_max_gi))

  -- From the read of the pod on, once the gate is open.
  unfoldable pub probe_daemon :
      Settings → F → F → BuildProject → Pvc → GrowAnswers → Read Bytes → Run GrowAction (Unit {0})
  probe_daemon r default factor bp pvc a missing = return tt
  probe_daemon r default factor bp pvc a (unreadable e) = fail e
  probe_daemon r default factor bp pvc a (found ip) =
      if is_empty ip then return tt else decide_growth r default factor bp pvc a a.usage

  abbrev pub is_disabled : Settings → Bool → BuildProject → Bool
  is_disabled r has_probe bp =
      leb_ℤ r.auto_grow_threshold_pct (pos 0) || not has_probe || is_fork_key bp.spec.key

  abbrev pub is_bounce_due : BuildProject → Pvc → ℤ → Bool
  is_bounce_due bp pvc ready =
      resize_pending pvc && (inflight_count bp.status == 0) && leb_ℤ (pos 1) ready

  abbrev pub is_expanding : Pvc → Bool
  is_expanding pvc =
      ltb_ℤ (pos 0) (gi_of pvc.capacity) && ltb_ℤ (gi_of pvc.capacity) (gi_of pvc.request)

  -- `maybeAutoGrow` behind the read of the volume.
  unfoldable pub grow_volume :
      Settings
      → F
      → F
      → BuildProject
      → Pvc
      → ℤ
      → Gates
      → GrowAnswers
      → Run GrowAction (Unit {0}) × Gates
  grow_volume r default factor bp pvc ready gates a =
      let (may_bounce, bounce') =
        allow gates.bounce bp.spec.key a.at_bounce auto_grow_bounce_interval in
      let (may_probe, probe') = allow gates.probe bp.spec.key a.at_probe auto_grow_probe_interval in
      if is_bounce_due bp pvc ready
      then (
        if may_bounce then bounce_daemon r bp a else return tt,
        record gates { bounce = bounce' },
      )
      else if is_expanding pvc || ltb_ℤ ready (pos 1)
      then (return tt, gates)
      else (
        if may_probe then probe_daemon r default factor bp pvc a a.pod else return tt,
        record gates { probe = probe' },
      )

  unfoldable pub grow_on :
      Settings
      → F
      → F
      → BuildProject
      → ℤ
      → Gates
      → GrowAnswers
      → Read Pvc
      → Run GrowAction (Unit {0}) × Gates
  grow_on r default factor bp ready gates a missing = (return tt, gates)
  grow_on r default factor bp ready gates a (unreadable e) = (fail e, gates)
  grow_on r default factor bp ready gates a (found pvc) =
      grow_volume r default factor bp pvc ready gates a

  -- `maybeAutoGrow`.
  unfoldable pub maybe_auto_grow :
      Settings
      → Bool
      → F
      → F
      → BuildProject
      → ℤ
      → Gates
      → GrowAnswers
      → Run GrowAction (Unit {0}) × Gates
  maybe_auto_grow r has_probe default factor bp ready gates a =
      if is_disabled r has_probe bp
      then (return tt, gates)
      else grow_on r default factor bp ready gates a a.pvc
