-- ===== src/Controller/Elasticity/Window.antt =====
-- `effectiveIdle` and `idleRecheckInterval`: the bounds of the idle window and of the re-check.
use buildkit_operator.Base.{
  ℕ, ◌+◌, ◌*◌, ◌/◌, ◌^◌, ◌≤◌, ◌<◌, ◌≡◌, refl, ap, ◌∙◌, pos, ◌≤ℤ◌, ◌-◌, sub_ℕ, ◌*ℤ◌, *ℤ_pos, ◌-ℤ◌,
  ◌+ℤ◌, ltb_ℤ, wrap64, wrap64_id, min, max, if◌then◌else◌, Option, some, Time, Duration, second,
  seconds_pos, time_sub, arith,
}
use buildkit_operator.Api.Types.{BuildProject}
use buildkit_operator.Api.Adaptive.{builds_in_window}
use buildkit_operator.Controller.Elasticity.{
  effective_idle, idle_recheck_interval, pace, remaining_idle, min_recheck,
}

-- A window between the base and what limit and cadence allow.
pub record IsWindow (base limit builds : ℕ) (eff : Duration) : Type 0 where
  pub width : ℕ
  pub is_width : eff ≡ pos width
  pub at_least : base ≤ width
  pub capped : width ≤ max base limit
  pub earned : width ≤ base * max 1 builds

IsWindow-base : (base limit builds : ℕ) → IsWindow base limit builds (pos base)
IsWindow-base base limit builds = record {
  width = base;
  is_width = refl;
  at_least = omega arith;
  capped = omega arith;
  earned = grind arith;
}

IsWindow-scaled :
    (base limit builds : ℕ)
    → base < limit
    → 1 < builds
    → IsWindow base limit builds (pos (min limit (base * builds)))
IsWindow-scaled base limit builds h k = record {
  width = min limit (base * builds);
  is_width = refl;
  at_least = grind arith;
  capped = grind arith;
  earned = grind arith;
}

scaled_eff :
    (base limit builds : ℕ)
    → base * builds < 2 ^ 63
    → (let eff = wrap64 (pos base *ℤ pos builds) in
        if ltb_ℤ (pos limit) eff then pos limit else eff)
      ≡ pos (min limit (base * builds))
scaled_eff base limit builds h =
    rw (*ℤ_pos base builds, wrap64_id (pos (base * builds)) (h, omega arith)) (ground arith)

-- If the idle time is a natural number of seconds and its product with the builds of the window
-- (at least 1) fits in 63 bits, the effective window is at least the base, at most the larger of
-- base and limit, and at most the base times those builds.
pub effective_idle-IsWindow :
    (bp : BuildProject) (now : Time) (idle limit : ℕ)
    → bp.spec.idle_timeout_sec ≡ pos idle
    → idle * second * max 1 (builds_in_window bp.status.recent_build_times now) < 2 ^ 63
    → IsWindow
        (idle * second)
        limit
        (builds_in_window bp.status.recent_build_times now)
        (effective_idle bp now (pos limit))
unfolding effective_idle
effective_idle-IsWindow bp now idle limit e h =
    let base = idle * second in
    let n = builds_in_window bp.status.recent_build_times now in
    let plain = IsWindow-base base limit n in
    let fits : base < 2 ^ 63 = grind arith in
    let scaled_fits : base * n < 2 ^ 63 = grind arith in
    rw (e, seconds_pos idle fits)
      (ground (arith, plain, scaled_eff base limit n scaled_fits, IsWindow-scaled base limit n))

remaining_idle_pos :
    (w now last : ℕ)
    → w < 2 ^ 62
    → last ≤ now
    → now < last + 2 ^ 62
    → remaining_idle (pos w) now last ≡ sub_ℕ (w + 5 * second) (now - last)
unfolding remaining_idle time_sub ◌-ℤ◌ ◌+ℤ◌ wrap64
remaining_idle_pos w now last h k l = ground arith

-- The re-check comes within the idle window's sixth and within its rest, and not more often than
-- every thirty seconds.
pub record IsPaced (w now last : ℕ) (interval : Duration) : Type 0 where
  pub not_busy : pos (30 * second) ≤ℤ interval
  pub by_sixth : interval ≤ℤ pos (max (30 * second) (w / 6))
  pub by_rest : interval ≤ℤ pos (max (30 * second) (w + 5 * second - (now - last)))

pace-some :
    (w now last : ℕ)
    → w < 2 ^ 62
    → last ≤ now
    → now < last + 2 ^ 62
    → pace (some last) (pos w) now ≡ (
        let remaining = sub_ℕ (w + 5 * second) (now - last) in
        if ltb_ℤ remaining (pos (w / 6)) then remaining else pos (w / 6))
unfolding pace
pace-some w now last h k l = rw (remaining_idle_pos w now last h k l)

abbrev floored : Duration → Duration
floored iv = if ltb_ℤ iv min_recheck then min_recheck else iv

abbrev recheck : ℕ → ℕ → ℕ → Duration
recheck w now last =
    let remaining = sub_ℕ (w + 5 * second) (now - last) in
    floored (if ltb_ℤ remaining (pos (w / 6)) then remaining else pos (w / 6))

recheck-IsPaced : (w now last : ℕ) → last ≤ now → IsPaced w now last (recheck w now last)
recheck-IsPaced w now last h = ground arith

module _ (bp : BuildProject) (now : Time) (limit : Duration) (w last : ℕ)
    (window : effective_idle bp now limit ≡ pos w) (built : bp.status.last_build_time ≡ some last)
    (small : w < 2 ^ 62) (past : last ≤ now) (near : now < last + 2 ^ 62) where
  idle_recheck_interval-recheck : idle_recheck_interval bp now limit ≡ recheck w now last
  unfolding idle_recheck_interval
  idle_recheck_interval-recheck =
      ap (λ (e : Duration). floored (pace bp.status.last_build_time e now)) window
      ∙ ap (λ (o : Option Time). floored (pace o (pos w) now)) built
      ∙ ap floored (pace-some w now last small past near)

  -- If the effective window is below 2^62 nanoseconds and the last build is at most that far in
  -- the past, the re-check interval is at least thirty seconds, and at most the larger of that and
  -- the sixth of the window, and of that and the rest of the window with five seconds of slack.
  pub idle_recheck_interval-IsPaced : IsPaced w now last (idle_recheck_interval bp now limit)
  idle_recheck_interval-IsPaced = rw idle_recheck_interval-recheck (recheck-IsPaced w now last past)
