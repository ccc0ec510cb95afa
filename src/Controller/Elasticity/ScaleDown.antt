-- ===== src/Controller/Elasticity/ScaleDown.antt =====
-- When a daemon is kept up, and when it may be taken down.
use buildkit_operator.Base.{
  ℕ, ◌+◌, ◌*◌, ◌^◌, ◌≤◌, ◌<◌, ◌≡◌, ◌≢◌, refl, subst, ◌∙◌, ◌⊎◌, inl, inr, true, false, pos, ltb, max,
  Option, none, some, List, [], ◌∷◌, ◌++◌, length, All, bytes_eq, bytes_eq_iff, ltb→lt, Time,
  Duration, second, max_duration, time_sub-lt, arith, Bool-cases,
}
use buildkit_operator.Api.Types.{BuildProject, InflightBuild, tier_hot}
use buildkit_operator.Api.Inflight.{expire_inflight}
use buildkit_operator.Api.Inflight.Expiry.{is_live, live, expire_inflight-live}
use buildkit_operator.Api.Adaptive.{builds_in_window}
use buildkit_operator.Controller.Elasticity.{effective_idle, is_recent, desired_replicas}
use buildkit_operator.Controller.Elasticity.Window.{effective_idle-IsWindow}

-- The last build is inside a window of `w` nanoseconds.
abbrev pub Within : Option Time → ℕ → ℕ → Type 0
Within none w now = ⊥
Within (some last) w now = (0 < w) × (now < last + w)

abbrev pub Beyond : Option Time → ℕ → ℕ → Type 0
Beyond none w now = Unit {0}
Beyond (some last) w now = (w ≡ 0) ⊎ (last + w ≤ now)

is_recent_split :
    (last : Option Time) (now w : ℕ)
    → w ≤ max_duration
    → ((is_recent last now (pos w) ≡ true) × Within last w now)
      ⊎ ((is_recent last now (pos w) ≡ false) × Beyond last w now)
unfolding is_recent
is_recent_split none now w h = inr (refl, tt)
is_recent_split (some last) now w h = ground (arith, time_sub-lt now last w)

-- A daemon is wanted for the hot tier, for a live build or for a recent one, and for nothing else.
abbrev pub Wanted : BuildProject → List InflightBuild → ℕ → ℕ → Type 0
Wanted bp bs w now =
    (bp.spec.tier ≡ tier_hot) ⊎ (0 < length bs) ⊎ Within bp.status.last_build_time w now

abbrev pub Unwanted : BuildProject → List InflightBuild → ℕ → ℕ → Type 0
Unwanted bp bs w now =
    (bp.spec.tier ≢ tier_hot) × (length bs ≡ 0) × Beyond bp.status.last_build_time w now

live_nonempty :
    (now : Time) (max_age : Duration) (before : List InflightBuild) (b : InflightBuild)
    (after : List InflightBuild)
    → is_live now max_age b ≡ true
    → 0 < length (live now max_age (before ++ (b ∷ after)))
live_nonempty now max_age [] b after alive = ground arith
live_nonempty now max_age (x ∷ xs) b after alive =
    ground (arith, live_nonempty now max_age xs b after alive)

live_empty :
    (now : Time) (max_age : Duration) (bs : List InflightBuild)
    → All (λ (b : InflightBuild). is_live now max_age b ≡ false) bs
    → live now max_age bs ≡ []
live_empty now max_age [] dead = refl
live_empty now max_age (b ∷ bs) dead = ground (arith, live_empty now max_age bs dead.1)

-- If the effective idle window is a natural number of nanoseconds up to the largest duration,
-- desiredReplicas is 1 and the tier is hot, a build is live or the last build is inside the
-- window, or it is 0 and none of the three holds.
pub desired_replicas_split :
    (bp : BuildProject) (bs : List InflightBuild) (now : Time) (limit : Duration) (w : ℕ)
    → effective_idle bp now limit ≡ pos w
    → w ≤ max_duration
    → ((desired_replicas bp bs now limit ≡ 1) × Wanted bp bs w now)
      ⊎ ((desired_replicas bp bs now limit ≡ 0) × Unwanted bp bs w now)
unfolding desired_replicas
desired_replicas_split bp bs now limit w e h = elim (Bool-cases (bytes_eq bp.spec.tier tier_hot)) [
  | inl hot ↦ rw hot (inl (refl, inl ((bytes_eq_iff bp.spec.tier tier_hot).0 hot)))
  | inr cold ↦
      let not_hot : bp.spec.tier ≢ tier_hot =
        λ same. cc (cold, (bytes_eq_iff bp.spec.tier tier_hot).1 same) in
      rw (cold, e)
        (elim (Bool-cases (ltb 0 (length bs))) [
          | inl busy ↦ rw busy (inl (refl, inr (inl (ltb→lt _ _ busy))))
          | inr free ↦ rw free (elim (is_recent_split bp.status.last_build_time now w h) [
            | inl (recent, inside) ↦ rw recent (inl (refl, inr (inr inside)))
            | inr (old, outside) ↦ rw old (inr (refl, (not_hot, ground arith, outside)))
          ])
        ])
]

-- If an entry of the inflight set is live under the expiry window, desiredReplicas on the swept
-- set is 1, whatever tier, idle window and activity are.
pub desired_replicas_keeps :
    (bp : BuildProject) (now : Time) (max_age limit : Duration) (before : List InflightBuild)
    (b : InflightBuild) (after : List InflightBuild)
    → bp.status.inflight ≡ before ++ (b ∷ after)
    → is_live now max_age b ≡ true
    → desired_replicas bp (expire_inflight bp.status.inflight now max_age).0 now limit ≡ 1
unfolding desired_replicas
desired_replicas_keeps bp now max_age limit before b after e alive =
    let found = live_nonempty now max_age before b after alive in
    rw ((expire_inflight-live bp.status.inflight now max_age).0, e) (ground (arith, found))

not-Within :
    {o : Option Time} {last w bound now : ℕ}
    → o ≡ some last
    → w ≤ bound
    → last + bound ≤ now
    → Within o w now
    → ⊥
not-Within {o} {last} {w} {bound} {now} e h far inside =
    let (_, near) = subst (λ (x : Option Time). Within x w now) e inside in omega arith

-- For a project that is not hot, with an idle time of a natural number of seconds whose product
-- with the builds of the window fits in 63 bits, desiredReplicas on the swept set is 0 once no
-- entry of the set is live and the last build is at least the base window and at least the
-- adaptive limit ago (both at most the largest duration).
pub desired_replicas_rests :
    (bp : BuildProject) (now : Time) (max_age : Duration) (idle limit last : ℕ)
    → bp.spec.tier ≢ tier_hot
    → bp.spec.idle_timeout_sec ≡ pos idle
    → idle * second * max 1 (builds_in_window bp.status.recent_build_times now) < 2 ^ 63
    → max (idle * second) limit ≤ max_duration
    → bp.status.last_build_time ≡ some last
    → last + max (idle * second) limit ≤ now
    → All (λ (b : InflightBuild). is_live now max_age b ≡ false) bp.status.inflight
    → desired_replicas bp (expire_inflight bp.status.inflight now max_age).0 now (pos limit) ≡ 0
desired_replicas_rests bp now max_age idle limit last warm i fits small l far dead =
    let window = effective_idle-IsWindow bp now idle limit i fits in
    let empty =
      (expire_inflight-live bp.status.inflight now max_age).0
      ∙ live_empty now max_age bp.status.inflight dead in
    elim (desired_replicas_split bp [] now (pos limit) window.width window.is_width (omega arith)) [
      | inl (_, inl hot) ↦ absurd (warm hot)
      | inl (_, inr (inl busy)) ↦ absurd (omega arith)
      | inl (_, inr (inr inside)) ↦ absurd (not-Within l window.capped far inside)
      | inr (done, _) ↦ rw empty done
    ]

pub desired_replicas-≤1 :
    (bp : BuildProject) (bs : List InflightBuild) (now : Time) (limit : Duration)
    → desired_replicas bp bs now limit ≤ 1
unfolding desired_replicas
desired_replicas-≤1 bp bs now limit = ground arith
