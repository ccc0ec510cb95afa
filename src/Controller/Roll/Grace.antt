-- ===== src/Controller/Roll/Grace.antt =====
-- What `ensureStatefulSet` asks of the API when the pod template has changed.
use buildkit_operator.Base.{
  ℕ, ◌<◌, ◌≡◌, sym, ap, ◌∙◌, ◌⊎◌, inl, inr, false, pos, List, [], ◌∷◌, All, bytes_eq, max_duration,
  is_empty, refl, true, Bool-cases, Option-cases, if◌then◌else◌,
}
use buildkit_operator.Api.Types.{InflightBuild}
use buildkit_operator.Controller.Effects.{
  found, ok, Result-cases, All-if, All-write, return, fail, write,
}
use buildkit_operator.Controller.Elasticity.{Settings, max_build_age}
use buildkit_operator.Controller.Inflight.{fresh_inflight_entries}
use buildkit_operator.Controller.Roll.{
  StatefulSet, StsAction, create, patch, StsAnswers, Want, Plan, absent, severed, plan_for,
  roll_plan, converge, next_stateful_set, is_settled, ensure_stateful_set,
}
use buildkit_operator.Controller.Roll.Hold.{Excuse, hold_roll_split}

severed-known :
    (r : Settings) (a : StsAnswers) (live builds : List InflightBuild)
    → severed r a live ≡ ok builds
    → ((is_empty live ≡ false) × (builds ≡ live))
      ⊎ ((is_empty live ≡ true) × (fresh_inflight_entries r a.fresh a.fresh_now ≡ ok builds))
unfolding severed
severed-known r a [] builds e = inr (refl, e)
severed-known r a (b ∷ bs) builds e = let same : b ∷ bs ≡ builds = cc e in inl (refl, sym same)

module _ (r : Settings) (want : Want) (a : StsAnswers) (sts : StatefulSet)
    (live : List InflightBuild) (m : ℕ) (window : max_build_age r ≡ pos m)
    (small : m < max_duration) where
  -- The builds on the daemon: those of the caller, or, if it has none, those of a fresh read.
  abbrev pub Serves : List InflightBuild → Type 0
  Serves builds =
      ((is_empty live ≡ false) × (builds ≡ live))
      ⊎ ((is_empty live ≡ true) × (fresh_inflight_entries r a.fresh a.fresh_now ≡ ok builds))

  -- There is none, or there is an excuse for severing them.
  abbrev pub MayRoll : List InflightBuild → Type 0
  MayRoll [] = Serves []
  MayRoll (b ∷ bs) =
      Serves (b ∷ bs) × Excuse r a.pods a.clock sts.roll_held_since m window small b bs

  -- A patch that keeps the template, or one that may replace it; no StatefulSet is created anew.
  abbrev pub IsCareful : StsAction → Type 0
  IsCareful (create n) = ⊥
  IsCareful (patch next) =
      (next.template ≡ sts.template) ⊎ ((builds : List InflightBuild) × MayRoll builds)

  plan_for-MayRoll :
      (builds : List InflightBuild)
      → severed r a live ≡ ok builds
      → ((plan_for r a sts.roll_held_since builds).rolls ≡ false) ⊎ MayRoll builds
  unfolding plan_for
  plan_for-MayRoll [] e = inr (severed-known r a live [] e)
  plan_for-MayRoll (b ∷ bs) e =
      elim (hold_roll_split r a.pods a.clock sts.roll_held_since m window small b bs) [
        | inl (released, excuse) ↦ inr (severed-known r a live (b ∷ bs) e, excuse)
        | inr (holds, _) ↦ inl (rw holds)
      ]

  roll_plan-MayRoll :
      (plan : Plan)
      → roll_plan r want a sts live ≡ ok plan
      → (plan.rolls ≡ false) ⊎ ((builds : List InflightBuild) × MayRoll builds)
  unfolding roll_plan
  roll_plan-MayRoll plan e = elim (Bool-cases (bytes_eq sts.hash want.hash)) [
    | inl same ↦
        let kept : record { held = false; rolls = false; stamp = absent } ≡ plan = cc (same, e) in
        inl (ap (λ (p : Plan). p.rolls) (sym kept))
    | inr other ↦ elim (Result-cases (severed r a live)) [
      | inl (builds, known) ↦
          let planned : plan_for r a sts.roll_held_since builds ≡ plan = cc (other, known, e) in
          elim (plan_for-MayRoll builds known) [
            | inl held ↦ inl (ap (λ (p : Plan). p.rolls) (sym planned) ∙ held)
            | inr may ↦ inr (builds, may)
          ]
      | inr (x, failed) ↦ absurd (cc (other, failed, e))
    ]
  ]

  converge-IsCareful :
      (desired : ℕ) (plan : Plan)
      → (plan.rolls ≡ false) ⊎ ((builds : List InflightBuild) × MayRoll builds)
      → All IsCareful (converge want a sts desired plan).log
  unfolding converge
  converge-IsCareful desired plan h =
      let kept : (if plan.rolls then want.template else sts.template) ≡ sts.template
          ⊎ ((builds : List InflightBuild) × MayRoll builds) =
        elim h [ inl stays ↦ inl (rw stays) | inr may ↦ inr may ] in
      All-if IsCareful (is_settled sts desired plan) (return plan.held)
        (write (patch (next_stateful_set want sts desired plan)) a.patched plan.held) tt
        (All-write IsCareful (patch (next_stateful_set want sts desired plan)) a.patched plan.held
          kept)

-- For a StatefulSet that exists, and a window for builds below the largest duration, whatever the
-- owner reference, the fresh read, the pods and the writes answer: ensureStatefulSet creates
-- nothing, and its patch either keeps the pod template or comes with a known set of builds (the
-- caller's, or else those of a fresh read) that is empty or has an excuse: a wedged pod, a
-- youngest build older than the grace, or a hold older than the window.
pub ensure_stateful_set-IsCareful :
    (r : Settings) (want : Want) (a : StsAnswers) (sts : StatefulSet) (desired : ℕ)
    (live : List InflightBuild) (m : ℕ) (window : max_build_age r ≡ pos m)
    (small : m < max_duration)
    → a.existing ≡ found sts
    → All
        (IsCareful r want a sts live m window small)
        (ensure_stateful_set r want a desired live).log
unfolding ensure_stateful_set
ensure_stateful_set-IsCareful r want a sts desired live m window small exists =
    elim (Option-cases a.owner) [
      | inl owned ↦ elim (Result-cases (roll_plan r want a sts live)) [
        | inl (plan, e) ↦
            let runs : ensure_stateful_set r want a desired live
                ≡ converge want a sts desired plan =
              cc (owned, exists, e) in
            rw runs (
              converge-IsCareful r want a sts live m window small desired plan
                (roll_plan-MayRoll r want a sts live m window small plan e))
        | inr (x, failed) ↦
            let runs : ensure_stateful_set r want a desired live ≡ fail x =
              cc (owned, exists, failed) in
            rw runs tt
      ]
      | inr (x, failed) ↦
          let runs : ensure_stateful_set r want a desired live ≡ fail x = cc failed in rw runs tt
    ]
