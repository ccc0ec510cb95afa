-- ===== src/Controller/Requeue.antt =====
-- When `Reconcile` of internal/controller/buildproject_controller.go comes back to a project.
pub mod Prompt
use buildkit_operator.Base.{
  ℕ, ◌*◌, ◌≡◌, Bool, true, false, ◌||◌, ◌&&◌, not, ◌==◌, if◌then◌else◌, ℤ, pos, ltb_ℤ, leb_ℤ, eqb_ℤ,
  List, [], ◌∷◌, bytes_eq, Time, Duration, second, time_sub, time_add,
}
use buildkit_operator.Api.Types.{BuildProject, InflightBuild, tier_hot}
use buildkit_operator.Controller.Elasticity.{
  Settings, adaptive_idle_max, max_build_age, idle_recheck_interval,
}

abbrev pub scaling_recheck_interval : Duration
scaling_recheck_interval = pos (30 * second)

abbrev pub drain_recheck_interval : Duration
drain_recheck_interval = pos (30 * second)

-- `if requeue == 0 || d < requeue { requeue = d }`.
unfoldable pub sooner : Duration → Duration → Duration
sooner requeue d = if eqb_ℤ requeue (pos 0) || ltb_ℤ d requeue then d else requeue

-- The same under a condition.
unfoldable pub sooner_if : Bool → Duration → Duration → Duration
sooner_if true requeue d = sooner requeue d
sooner_if false requeue d = requeue

-- What the end of `Reconcile` knows.
pub record Passed : Type 0 where
  pub project : BuildProject
  pub live : List InflightBuild
  pub desired : ℕ
  pub ready : ℤ
  pub snap_after : Duration
  pub prune_pending : Bool
  pub roll_held : Bool
  pub at_recheck : Time
  pub at_until : Time

unfoldable pub idle_requeue : Settings → Passed → Duration
unfolding bytes_eq
idle_requeue r p =
    if (p.desired == 1) && not (bytes_eq p.project.spec.tier tier_hot)
    then idle_recheck_interval p.project p.at_recheck (adaptive_idle_max r)
    else pos 0

-- How long until the oldest live entry expires.
unfoldable pub until_expiry : Settings → Time → List InflightBuild → Duration
until_expiry r now [] = pos 0
until_expiry r now (b ∷ bs) = time_sub (time_add b.since (max_build_age r)) now

-- The duration after which the project is looked at again; 0 for none.
unfoldable pub requeue_after : Settings → Passed → Duration
requeue_after r p =
    let idle = idle_requeue r p in
    let scaling =
      sooner_if ((p.desired == 1) && ltb_ℤ p.ready (pos 1)) idle scaling_recheck_interval in
    let snapped = sooner_if (ltb_ℤ (pos 0) p.snap_after) scaling p.snap_after in
    let expiry = until_expiry r p.at_until p.live in
    let expired = sooner_if (ltb_ℤ (pos 0) expiry) snapped expiry in
    let pruned = sooner_if p.prune_pending expired drain_recheck_interval in
    sooner_if p.roll_held pruned drain_recheck_interval
