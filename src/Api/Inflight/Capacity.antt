-- ===== src/Api/Inflight/Capacity.antt =====
-- What may enter the inflight set: the cap, new entries, adopted entries, and the count beside it.
use buildkit_operator.Base.{
  ℕ, zero, suc, ◌+◌, ◌-◌, ◌≤◌, ◌<◌, ◌≡◌, refl, ◌∙◌, inl, inr, true, false, ltb, pos, some, List, [],
  ◌∷◌, ◌++◌, length, drop, min, length-append, length-drop, drop-append_le, All, Bytes, Time, arith,
  Bool-cases,
}
use buildkit_operator.Api.Types.{InflightBuild, BuildProjectStatus}
use buildkit_operator.Api.Inflight.{
  inflight_cap, cap_inflight, set_inflight, inflight_count, adopted_entries, adopt_legacy_inflight,
  start_inflight, inflight_id,
}

pub length-cap_inflight : (bs : List InflightBuild) → length (cap_inflight bs) ≤ inflight_cap
unfolding cap_inflight
length-cap_inflight bs = ground (arith, length-drop (length bs - inflight_cap) bs)

pub cap_inflight_id : (bs : List InflightBuild) → length bs ≤ inflight_cap → cap_inflight bs ≡ bs
unfolding cap_inflight
cap_inflight_id bs h = ground arith

-- The cap sheds a front part of the list, the oldest entries, and nothing else.
pub cap_inflight-drop :
    (bs : List InflightBuild) → cap_inflight bs ≡ drop (length bs - inflight_cap) bs
unfolding cap_inflight
cap_inflight-drop bs = elim (Bool-cases (ltb inflight_cap (length bs))) [
  | inl over ↦ ground arith
  | inr fits ↦ let e : length bs - inflight_cap ≡ 0 = ground arith in rw (fits, e)
]

-- The count beside the entries is their number, and at most the cap.
abbrev pub IsProjected : BuildProjectStatus → Type 0
IsProjected s = (s.inflight_builds ≡ pos (inflight_count s)) × (inflight_count s ≤ inflight_cap)

pub set_inflight-IsProjected :
    (bs : List InflightBuild) (s : BuildProjectStatus) → IsProjected (set_inflight bs s)
unfolding set_inflight inflight_count
set_inflight-IsProjected bs s = (refl, length-cap_inflight bs)

length-adopted_entries : (at i n : ℕ) → length (adopted_entries at i n) ≡ n
unfolding adopted_entries
length-adopted_entries at i zero = refl
length-adopted_entries at i (suc n) = omega (arith, length-adopted_entries at (i + 1) n)

dated-adopted_entries :
    (at i n : ℕ) → All (λ (b : InflightBuild). b.since ≡ at) (adopted_entries at i n)
unfolding adopted_entries
dated-adopted_entries at i zero = tt
dated-adopted_entries at i (suc n) = (refl, dated-adopted_entries at (i + 1) n)

-- What adoption makes of a bare count: so many entries, all dated from the last build.
pub record IsAdopted (s t : BuildProjectStatus) (at count : ℕ) : Type 0 where
  pub counted : inflight_count t ≡ min count inflight_cap
  pub projected : t.inflight_builds ≡ pos (min count inflight_cap)
  pub dated : All (λ (b : InflightBuild). b.since ≡ at) t.inflight
  pub last_kept : t.last_build_time ≡ s.last_build_time
  pub recent_kept : t.recent_build_times ≡ s.recent_build_times

-- A status with a positive bare count, no entries and a last build is adopted: true is reported,
-- the entries and the count are both the bare count up to the cap, every entry is dated at the
-- last build, and the times of builds stay.
pub adopt_legacy_inflight-IsAdopted :
    (s : BuildProjectStatus) (count at : ℕ)
    → s.inflight ≡ []
    → s.inflight_builds ≡ pos count
    → 0 < count
    → s.last_build_time ≡ some at
    → ((adopt_legacy_inflight s).1 ≡ true) × IsAdopted s (adopt_legacy_inflight s).0 at count
unfolding adopt_legacy_inflight inflight_count
adopt_legacy_inflight-IsAdopted s count at e f h l =
    let n = min count inflight_cap in
    let sized = length-adopted_entries at 0 n in
    let fits = cap_inflight_id (adopted_entries at 0 n) (omega (arith, sized)) in
    rw (e, f, l) (ground (arith, sized, fits, dated-adopted_entries at 0 n))

-- Adopting a second time changes nothing and reports false.
pub adopt_legacy_inflight_again :
    (s : BuildProjectStatus)
    → adopt_legacy_inflight (adopt_legacy_inflight s).0 ≡ ((adopt_legacy_inflight s).0, false)
unfolding adopt_legacy_inflight
adopt_legacy_inflight_again s = ground arith

module _ (sha256 : Bytes → Bytes) where
  pub length-start_inflight :
      (bs : List InflightBuild) (token : Bytes) (now : Time)
      → length (start_inflight sha256 bs token now) ≡ min (length bs + 1) inflight_cap
  unfolding start_inflight
  length-start_inflight bs token now =
      let new : List InflightBuild = record { id = inflight_id sha256 token; since = now } ∷ [] in
      rw
        (cap_inflight-drop (bs ++ new), length-drop (length (bs ++ new) - inflight_cap) (bs ++ new))
        (omega (arith, length-append bs new))

  -- StartInflight puts the new entry at the end of the set and takes from the front only the
  -- entries that exceed the cap.
  pub start_inflight-append :
      (bs : List InflightBuild) (token : Bytes) (now : Time)
      → start_inflight sha256 bs token now
        ≡ drop (length bs + 1 - inflight_cap) bs
          ++ (record { id = inflight_id sha256 token; since = now } ∷ [])
  unfolding start_inflight
  start_inflight-append bs token now =
      let new : List InflightBuild = record { id = inflight_id sha256 token; since = now } ∷ [] in
      cap_inflight-drop (bs ++ new)
      ∙ rw (length-append bs new)
          (drop-append_le (length bs + 1 - inflight_cap) bs new (omega arith))
