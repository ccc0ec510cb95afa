-- ===== src/Controller/Roll/Hold.antt =====
-- What `holdRoll` answers, and for how long it can go on withholding a template.
use buildkit_operator.Base.{
  ℕ, ◌+◌, ◌≤◌, ◌<◌, ◌≡◌, sym, ap, ◌∙◌, ◌⊎◌, inl, inr, Bool, true, false, pos, List, is_empty, Time,
  max_duration, time_sub-gt, arith,
}
use buildkit_operator.Api.Types.{InflightBuild}
use buildkit_operator.Controller.Effects.{Read}
use buildkit_operator.Controller.Elasticity.{Settings, max_build_age}
use buildkit_operator.Controller.Health.{Pod, daemon_failure}
use buildkit_operator.Controller.Roll.{
  Stamp, absent, garbled, at, HoldClock, held_since, hold_roll, last_entry, min_build_grace,
}

module _ (r : Settings) (pods : Read (List Pod)) (clock : HoldClock) (stamp : Stamp) (m : ℕ)
    (window : max_build_age r ≡ pos m) (small : m < max_duration) where
  -- Since when this daemon's template is withheld.
  abbrev pub since : Time
  since = (held_since stamp clock.at_stamp).0

  -- Why a roll goes through: a wedged pod, builds that have all had their grace, or a hold that
  -- has lasted as long as a build may.
  abbrev pub Excuse : InflightBuild → List InflightBuild → Type 0
  Excuse b bs =
      (is_empty (daemon_failure pods) ≡ false)
      ⊎ ((last_entry b bs).since + min_build_grace < clock.at_youngest)
      ⊎ (since + m < clock.at_held)

  -- Why it does not.
  abbrev pub NoExcuse : InflightBuild → List InflightBuild → Type 0
  NoExcuse b bs =
      (is_empty (daemon_failure pods) ≡ true)
      × (clock.at_youngest ≤ (last_entry b bs).since + min_build_grace)
      × (clock.at_held ≤ since + m)

  -- For a window for builds below the largest duration, holdRoll answers false and a pod is
  -- wedged, the youngest build is older than the grace or the hold is older than the window; or it
  -- answers true with the annotation of when the hold began, and none of the three holds.
  pub hold_roll_split :
      (b : InflightBuild) (bs : List InflightBuild)
      → (((hold_roll r pods clock stamp b bs).0 ≡ false) × Excuse b bs)
        ⊎ ((hold_roll r pods clock stamp b bs ≡ (true, (held_since stamp clock.at_stamp).1))
            × NoExcuse b bs)
  unfolding hold_roll
  hold_roll_split b bs = rw window (
      ground (
        arith,
        time_sub-gt clock.at_youngest (last_entry b bs).since min_build_grace,
        time_sub-gt clock.at_held since m small,
      ))

-- A stamped hold never begins later than it was.
held_since_stable :
    (s : Stamp) (now later : Time)
    → (held_since (held_since s now).1 later).0 ≤ (held_since s now).0
unfolding held_since
held_since_stable absent now later = omega arith
held_since_stable (garbled t) now later = omega arith
held_since_stable (at t) now later = omega arith

stamp_of :
    (r : Settings) (pods : Read (List Pod)) (clock : HoldClock) (stamp stamp' : Stamp) (m : ℕ)
    (b : InflightBuild) (bs : List InflightBuild)
    → max_build_age r ≡ pos m
    → m < max_duration
    → hold_roll r pods clock stamp b bs ≡ (true, stamp')
    → stamp' ≡ (held_since stamp clock.at_stamp).1
stamp_of r pods clock stamp stamp' m b bs window small holds =
    elim (hold_roll_split r pods clock stamp m window small b bs) [
      | inl (released, _) ↦ absurd (cc (released, holds))
      | inr (e, _) ↦ ap (λ (x : Bool × Stamp). x.1) (sym holds ∙ e)
    ]

-- If holdRoll withholds the roll and leaves an annotation, then a later look at that annotation,
-- once the window for builds (below the largest duration) has passed since the hold began, does
-- not withhold it, whatever builds and pods there are by then.
pub hold_roll_bounded :
    (r : Settings) (pods pods' : Read (List Pod)) (clock clock' : HoldClock) (stamp stamp' : Stamp)
    (m : ℕ) (b c : InflightBuild) (bs cs : List InflightBuild)
    → max_build_age r ≡ pos m
    → m < max_duration
    → hold_roll r pods clock stamp b bs ≡ (true, stamp')
    → (held_since stamp clock.at_stamp).0 + m < clock'.at_held
    → (hold_roll r pods' clock' stamp' c cs).0 ≡ false
hold_roll_bounded r pods pods' clock clock' stamp stamp' m b c bs cs window small holds late =
    let kept : stamp' ≡ (held_since stamp clock.at_stamp).1 =
      stamp_of r pods clock stamp stamp' m b bs window small holds in
    elim (hold_roll_split r pods' clock' stamp' m window small c cs) [
      | inl (released, _) ↦ released
      | inr (_, (_, _, early)) ↦
          let later = held_since_stable stamp clock.at_stamp clock'.at_stamp in
          let moved = ap (λ (s : Stamp). (held_since s clock'.at_stamp).0) kept in
          absurd (omega (arith, early, later, moved, late))
    ]
