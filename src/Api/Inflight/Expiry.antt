-- ===== src/Api/Inflight/Expiry.antt =====
-- Entries leave the inflight set by age, each on its own clock.
use buildkit_operator.Base.{
  ◌+◌, ◌≤◌, ◌≡◌, refl, Bool, true, leb_ℤ, ltb_ℤ, List, [], ◌∷◌, length, filter, count_if, Time,
  Duration, time_sub, arith,
}
use buildkit_operator.Api.Types.{InflightBuild}
use buildkit_operator.Api.Inflight.{expire_inflight}

-- An entry that has not outlived the window.
abbrev pub is_live : Time → Duration → InflightBuild → Bool
is_live now max_age b = leb_ℤ (time_sub now b.since) max_age

abbrev pub live : Time → Duration → List InflightBuild → List InflightBuild
live now max_age = filter (is_live now max_age)

count_dead-live :
    (now : Time) (max_age : Duration) (bs : List InflightBuild)
    → count_if (λ (b : InflightBuild). ltb_ℤ max_age (time_sub now b.since)) bs
        + length (live now max_age bs)
      ≡ length bs
count_dead-live now max_age [] = refl
count_dead-live now max_age (b ∷ bs) = ground (arith, count_dead-live now max_age bs)

live-all :
    (now : Time) (max_age : Duration) (bs : List InflightBuild)
    → count_if (λ (b : InflightBuild). ltb_ℤ max_age (time_sub now b.since)) bs ≡ 0
    → live now max_age bs ≡ bs
live-all now max_age [] h = refl
live-all now max_age (b ∷ bs) h = ground (arith, live-all now max_age bs)

-- ExpireInflight keeps exactly the entries that are live under the window, in their order, and the
-- number it reports and the number it keeps add up to the number of entries.
pub expire_inflight-live :
    (bs : List InflightBuild) (now : Time) (max_age : Duration)
    → ((expire_inflight bs now max_age).0 ≡ live now max_age bs)
      × ((expire_inflight bs now max_age).1 + length (expire_inflight bs now max_age).0 ≡ length bs)
unfolding expire_inflight
expire_inflight-live bs now max_age =
    ground (arith, count_dead-live now max_age bs, live-all now max_age bs)

-- Time only moves entries out of the window.
is_live-earlier :
    (t u : Time) (max_age : Duration) (b : InflightBuild)
    → t ≤ u
    → is_live u max_age b ≡ true
    → is_live t max_age b ≡ true
unfolding time_sub
is_live-earlier t u max_age b h l = ground arith

live-live :
    (t u : Time) (max_age : Duration) (bs : List InflightBuild)
    → t ≤ u
    → live u max_age (live t max_age bs) ≡ live u max_age bs
live-live t u max_age [] h = refl
live-live t u max_age (b ∷ bs) h =
    ground (arith, live-live t u max_age bs h, is_live-earlier t u max_age b h)

-- Sweeping at one time and again at a later time leaves what the later sweep alone leaves.
pub expire_inflight_twice :
    (bs : List InflightBuild) (t u : Time) (max_age : Duration)
    → t ≤ u
    → (expire_inflight (expire_inflight bs t max_age).0 u max_age).0
      ≡ (expire_inflight bs u max_age).0
expire_inflight_twice bs t u max_age h =
    rw
      (
        (expire_inflight-live bs t max_age).0,
        (expire_inflight-live (live t max_age bs) u max_age).0,
        (expire_inflight-live bs u max_age).0,
      )
      (live-live t u max_age bs h)
