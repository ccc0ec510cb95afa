-- ===== src/Controller/Roll.antt =====
-- `holdRoll` and `ensureStatefulSet` of internal/controller/buildproject_controller.go: replicas are
-- converged, and a changed pod template is rolled or withheld.
pub mod Grace
pub mod Hold
use buildkit_operator.Base.{
  ℕ, ◌+◌, ◌*◌, ◌/◌, ◌≡◌, refl, Bool, true, false, ◌||◌, ◌&&◌, not, ltb, ◌==◌, if◌then◌else◌, ℤ, pos,
  ltb_ℤ, eqb_ℤ, Option, none, some, List, [], ◌∷◌, ◌++◌, length, Bytes, bytes_eq, is_empty, Time,
  second, hour, time_sub,
}
use buildkit_operator.Api.Types.{BuildProject, InflightBuild}
use buildkit_operator.Controller.Effects.{
  Error, Read, found, missing, unreadable, Written, Result, ok, err, Run, return, fail, write,
  ◌>>=◌,
}
use buildkit_operator.Controller.Elasticity.{Settings, max_build_age}
use buildkit_operator.Controller.Health.{Pod, daemon_failure}
use buildkit_operator.Controller.Inflight.{fresh_inflight_entries}

abbrev pub min_build_grace : ℕ
min_build_grace = hour

-- The annotation that says since when a template is withheld: none, one that does not parse, or an
-- instant in whole seconds, as RFC 3339 keeps it.
pub data Stamp : Type 0 where
  absent : Stamp
  garbled : Bytes → Stamp
  at : ℕ → Stamp

-- Equality of the annotation's text, where an absent one reads as the empty text.
unfoldable pub same_stamp : Stamp → Stamp → Bool
unfolding bytes_eq
same_stamp absent absent = true
same_stamp absent (garbled s) = is_empty s
same_stamp (garbled s) absent = is_empty s
same_stamp (garbled s) (garbled t) = bytes_eq s t
same_stamp (at t) (at u) = t == u
same_stamp _ _ = false

-- `since.UTC().Format(time.RFC3339)` drops what is below a second.
abbrev pub stamp_at : Time → Stamp
stamp_at now = at (now / second)

-- The youngest entry of a set that is not empty.
abbrev pub last_entry : InflightBuild → List InflightBuild → InflightBuild
last_entry b [] = b
last_entry b (c ∷ cs) = last_entry c cs

-- The clock is read three times: for the stamp, for the youngest build, for the hold.
pub record HoldClock : Type 0 where
  pub at_stamp : Time
  pub at_youngest : Time
  pub at_held : Time

-- When the hold began, and the annotation after the first half of `holdRoll`.
unfoldable pub held_since : Stamp → Time → Time × Stamp
held_since (at t) now = (t * second, at t)
held_since absent now = (now, stamp_at now)
held_since (garbled s) now = (now, stamp_at now)

-- `holdRoll`: is the roll withheld, and the annotation that is left.
unfoldable pub hold_roll :
    Settings
    → Read (List Pod)
    → HoldClock
    → Stamp
    → InflightBuild
    → List InflightBuild
    → Bool × Stamp
unfolding held_since
hold_roll r pods clock stamp b bs =
    if not (is_empty (daemon_failure pods))
    then (false, stamp)
    else let (since, stamp') = held_since stamp clock.at_stamp in
      let youngest = time_sub clock.at_youngest (last_entry b bs).since in
      let held_for = time_sub clock.at_held since in
      if ltb_ℤ (pos min_build_grace) youngest || ltb_ℤ (max_build_age r) held_for
      then (false, absent)
      else (true, stamp')

-- The StatefulSet as far as it is driven: an unset replica count is `none`, and a missing hash is
-- the empty text.
pub record StatefulSet : Type 0 where
  pub replicas : Option ℕ
  pub template : Bytes
  pub hash : Bytes
  pub roll_held_since : Stamp

pub data StsAction : Type 0 where
  create : ℕ → StsAction
  patch : StatefulSet → StsAction

-- What the environment answers on the way.
pub record StsAnswers : Type 0 where
  pub owner : Option Error
  pub existing : Read StatefulSet
  pub fresh : Read BuildProject
  pub fresh_now : Time
  pub pods : Read (List Pod)
  pub clock : HoldClock
  pub created : Written
  pub patched : Written

-- What `builder.StatefulSet` renders, and `templateHash` of it.
pub record Want : Type 0 where
  pub template : Bytes
  pub hash : Bytes

-- What is decided about the template: is it withheld, is it rolled, and the annotation.
pub record Plan : Type 0 where
  pub held : Bool
  pub rolls : Bool
  pub stamp : Stamp

-- The builds that a changed template would sever: the caller's, or those of a fresh read.
unfoldable pub severed : Settings → StsAnswers → List InflightBuild → Result (List InflightBuild)
severed r a [] = fresh_inflight_entries r a.fresh a.fresh_now
severed r a (b ∷ bs) = ok (b ∷ bs)

unfoldable pub plan_for : Settings → StsAnswers → Stamp → List InflightBuild → Plan
plan_for r a stamp [] = record { held = false; rolls = true; stamp = absent }
plan_for r a stamp (b ∷ bs) =
    let (held, stamp') = hold_roll r a.pods a.clock stamp b bs in
    record { held = held; rolls = not held; stamp = if held then stamp' else absent }

unfoldable pub roll_plan :
    Settings → Want → StsAnswers → StatefulSet → List InflightBuild → Result Plan
roll_plan r want a sts live =
    if bytes_eq sts.hash want.hash
    then ok (record { held = false; rolls = false; stamp = absent })
    else elim (severed r a live) [
      | err e ↦ err e
      | ok builds ↦ ok (plan_for r a sts.roll_held_since builds)
    ]

-- The StatefulSet after the merge.
abbrev pub next_stateful_set : Want → StatefulSet → ℕ → Plan → StatefulSet
next_stateful_set want sts desired plan = record {
  replicas = some desired;
  template = if plan.rolls then want.template else sts.template;
  hash = if plan.rolls then want.hash else sts.hash;
  roll_held_since = plan.stamp;
}

-- Nothing to patch: same replicas, no roll, same annotation.
abbrev pub is_settled : StatefulSet → ℕ → Plan → Bool
is_settled sts desired plan =
    let old : ℕ = elim sts.replicas [ none ↦ 1 | some n ↦ n ] in
    old == desired && not plan.rolls && same_stamp plan.stamp sts.roll_held_since

-- The end of `ensureStatefulSet`: the patch, unless nothing would change.
unfoldable pub converge : Want → StsAnswers → StatefulSet → ℕ → Plan → Run StsAction Bool
converge want a sts desired plan =
    if is_settled sts desired plan
    then return plan.held
    else write (patch (next_stateful_set want sts desired plan)) a.patched plan.held

-- `ensureStatefulSet`: was the roll withheld?
unfoldable pub ensure_stateful_set :
    Settings → Want → StsAnswers → ℕ → List InflightBuild → Run StsAction Bool
ensure_stateful_set r want a desired live = elim a.owner [
  | some e ↦ fail e
  | none ↦ elim a.existing [
    | missing ↦ write (create desired) a.created false
    | unreadable e ↦ fail e
    | found sts ↦ elim (roll_plan r want a sts live) [
      | err e ↦ fail e
      | ok plan ↦ converge want a sts desired plan
    ]
  ]
]
