-- ===== src/Controller/Snapshots/Due.antt =====
-- `maybeSnapshot`: the age of the snapshots when one is taken.
use buildkit_operator.Base.{
  ℕ, ◌+◌, ◌≡◌, ◌≤◌, ◌<◌, refl, ◌⊎◌, inl, inr, ltb, pos, none, some, List, [], ◌∷◌, All, Time,
  max_duration, seconds, time_sub-lt, arith, Bool-cases, Option-cases,
}
use buildkit_operator.Api.Types.{BuildProject}
use buildkit_operator.Controller.Effects.{found, Read-cases}
use buildkit_operator.Controller.Elasticity.{Settings}
use buildkit_operator.Controller.Snapshots.{
  Snapshot, SnapAnswers, newest_from, newest_snapshot, not_due, is_off, maybe_snapshot,
}

-- The running best is no older than the start, and no older than anything seen.
newest_from-Newest :
    (n : Snapshot) (ss : List Snapshot)
    → (m : Snapshot) × (newest_from (some n) ss ≡ some m)
      × (n.created ≤ m.created)
      × All (λ (s : Snapshot). s.created ≤ m.created) ss
unfolding newest_from
newest_from-Newest n [] = (n, refl, omega arith, tt)
newest_from-Newest n (s ∷ ss) = elim (Bool-cases (ltb n.created s.created)) [
  | inl younger ↦
      let (m, e, le, rest) = newest_from-Newest s ss in (m, rw younger e, ground arith, (le, rest))
  | inr older ↦
      let (m, e, le, rest) = newest_from-Newest n ss in (m, rw older e, le, (ground arith, rest))
]

abbrev pub AllOlder : List Snapshot → ℕ → Time → Type 0
AllOlder ss c now = All (λ (s : Snapshot). s.created + c ≤ now) ss

older-All :
    (m : Snapshot) (c now : ℕ) (ss : List Snapshot)
    → m.created + c ≤ now
    → All (λ (s : Snapshot). s.created ≤ m.created) ss
    → AllOlder ss c now
older-All m c now [] h rest = tt
older-All m c now (s ∷ ss) h rest = (omega (arith, rest.0), older-All m c now ss h rest.1)

not_due-Older :
    (ss : List Snapshot) (c now : ℕ)
    → 0 < c
    → c ≤ max_duration
    → not_due (newest_snapshot ss) (pos c) now ≡ none
    → AllOlder ss c now
unfolding newest_snapshot not_due newest_from
not_due-Older [] c now p h e = tt
not_due-Older (s ∷ ss) c now p h e =
    let (m, best, le, rest) = newest_from-Newest s ss in
    let far : m.created + c ≤ now = ground (arith, best, e, time_sub-lt now m.created c h p) in
    older-All m c now (s ∷ ss) far (le, rest)

-- For a cadence that is a positive number of nanoseconds up to the largest duration, maybeSnapshot
-- asks for nothing, or the listed snapshots are all at least the cadence old.
pub maybe_snapshot-IsDue :
    (r : Settings) (bp : BuildProject) (a : SnapAnswers) (c : ℕ)
    → seconds bp.spec.snapshot_every_sec ≡ pos c
    → 0 < c
    → c ≤ max_duration
    → ((maybe_snapshot r bp a).log ≡ [])
      ⊎ ((ss : List Snapshot) × (a.snaps ≡ found ss) × AllOlder ss c a.at_age)
unfolding maybe_snapshot
maybe_snapshot-IsDue r bp a c e p h = elim (Bool-cases (is_off r bp)) [
  | inl off ↦ inl (rw off)
  | inr on ↦ rw on (elim (Read-cases a.pvc) [
    | inl (_, has_pvc) ↦ rw has_pvc (elim (Read-cases a.snaps) [
      | inl (ss, listed) ↦
          rw (listed, e)
            (elim (Option-cases (not_due (newest_snapshot ss) (pos c) a.at_age)) [
              | inl due ↦ inr (ss, refl, not_due-Older ss c a.at_age p h due)
              | inr (rest, early) ↦ inl (rw early)
            ])
      | inr (inl none_listed) ↦ inl (rw none_listed)
      | inr (inr (_, unlisted)) ↦ inl (rw unlisted)
    ])
    | inr (inl no_pvc) ↦ inl (rw no_pvc)
    | inr (inr (_, unread)) ↦ inl (rw unread)
  ])
]
