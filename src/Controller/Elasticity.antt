-- ===== src/Controller/Elasticity.antt =====
-- The scale-to-zero decisions of internal/controller/buildproject_controller.go.
pub mod Window
pub mod ScaleDown
use buildkit_operator.Base.{
  ℕ, ◌+◌, ◌/◌, ◌*◌, Bool, false, ◌||◌, ◌&&◌, ltb, leb, ◌==◌, if◌then◌else◌, ℤ, pos, negsuc, ◌+ℤ◌,
  ◌-ℤ◌, ◌*ℤ◌, leb_ℤ, ltb_ℤ, wrap64, Option, none, some, List, length, Bytes, text, bytes_eq, Time,
  Duration, second, hour, seconds, time_sub,
}
use buildkit_operator.Api.Types.{BuildProject, InflightBuild, tier_hot}
use buildkit_operator.Api.Adaptive.{builds_in_window}
use buildkit_operator.Router.{is_fork_key}

-- The settings of `BuildProjectReconciler` that these decisions read.
pub record Settings : Type 0 where
  pub keep_snapshots : ℤ
  pub max_build_seconds : ℤ
  pub adaptive_idle_max_seconds : ℤ
  pub auto_grow_threshold_pct : ℤ
  pub auto_grow_max_gi : ℤ
  pub namespace : Bytes
  pub snapshot_class : Bytes
  pub port : ℤ

-- `adaptiveIdleMax`.
unfoldable pub adaptive_idle_max : Settings → Duration
adaptive_idle_max r =
    if leb_ℤ r.adaptive_idle_max_seconds (pos 0) then pos 0 else seconds r.adaptive_idle_max_seconds

-- `maxBuildAge`.
unfoldable pub max_build_age : Settings → Duration
max_build_age r =
    if leb_ℤ r.max_build_seconds (pos 0) then pos (2 * hour) else seconds r.max_build_seconds

-- `effectiveIdle`.
unfoldable pub effective_idle : BuildProject → Time → Duration → Duration
effective_idle bp now adaptive_max =
    let base = seconds bp.spec.idle_timeout_sec in
    if leb_ℤ adaptive_max (pos 0)
      || leb_ℤ base (pos 0)
      || leb_ℤ adaptive_max base
      || is_fork_key bp.spec.key
    then base
    else let n = builds_in_window bp.status.recent_build_times now in
      if leb n 1
      then base
      else let eff = wrap64 (base *ℤ pos n) in if ltb_ℤ adaptive_max eff then adaptive_max else eff

-- The last test of `desiredReplicas`.
unfoldable pub is_recent : Option Time → Time → Duration → Bool
is_recent none now idle = false
is_recent (some last) now idle = ltb_ℤ (pos 0) idle && ltb_ℤ (time_sub now last) idle

-- `desiredReplicas`.
unfoldable pub desired_replicas : BuildProject → List InflightBuild → Time → Duration → ℕ
desired_replicas bp live_inflight now adaptive_max =
    if bytes_eq bp.spec.tier tier_hot
    then 1
    else if ltb 0 (length live_inflight)
    then 1
    else if is_recent bp.status.last_build_time now (effective_idle bp now adaptive_max)
    then 1
    else 0

-- Go's `/` on a signed number, which cuts towards zero.
unfoldable pub quot : ℤ → ℕ → ℤ
quot (pos a) k = pos (a / k)
quot (negsuc a) k = pos 0 -ℤ pos ((a + 1) / k)

abbrev pub min_recheck : Duration
min_recheck = pos (30 * second)

-- The slack behind the end of the idle window: `eff - now.Sub(last) + 5s`.
unfoldable pub remaining_idle : Duration → Time → Time → Duration
remaining_idle eff now last = wrap64 (wrap64 (eff -ℤ time_sub now last) +ℤ pos (5 * second))

-- The sixth of the window, or the rest of it if that is less.
unfoldable pub pace : Option Time → Duration → Time → Duration
unfolding remaining_idle quot
pace none eff now = quot eff 6
pace (some last) eff now =
    let iv = quot eff 6 in
    let remaining = remaining_idle eff now last in if ltb_ℤ remaining iv then remaining else iv

-- `idleRecheckInterval`.
unfoldable pub idle_recheck_interval : BuildProject → Time → Duration → Duration
idle_recheck_interval bp now adaptive_max =
    let iv = pace bp.status.last_build_time (effective_idle bp now adaptive_max) now in
    if ltb_ℤ iv min_recheck then min_recheck else iv

-- `phaseFrom`.
unfoldable pub phase_from : ℕ → ℤ → Bytes
phase_from desired ready =
    if desired == 0
    then text "Idle"
    else if leb_ℤ (pos 1) ready
    then text "Warm"
    else text "Scaling"
