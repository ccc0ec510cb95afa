-- ===== src/Api/Inflight.antt =====
-- api/v1alpha1/inflight.go: the set of routed builds that have not been released yet.
pub mod Order
pub mod Capacity
pub mod Release
pub mod Expiry
use buildkit_operator.Base.{
  ℕ, zero, suc, ◌+◌, ◌-◌, ◌/◌, ◌%◌, Bool, true, false, not, ◌||◌, ltb, ◌==◌, if◌then◌else◌, ℤ, pos,
  negsuc, pos_part, leb_ℤ, ltb_ℤ, Option, none, some, List, [], ◌∷◌, ◌++◌, map, length, take, drop,
  filter, count_if, find_index, is_empty, Bytes, text, bytes_eq, hex_encode, itoa_ℕ, Time, Duration,
  time_sub, min,
}
use buildkit_operator.Api.Types.{InflightBuild, BuildProjectStatus}

abbrev pub inflight_cap : ℕ
inflight_cap = 64

-- `capInflight`.
unfoldable pub cap_inflight : List InflightBuild → List InflightBuild
cap_inflight entries =
    if ltb inflight_cap (length entries)
    then drop (length entries - inflight_cap) entries
    else entries

-- `SetInflight`.
unfoldable pub set_inflight : List InflightBuild → BuildProjectStatus → BuildProjectStatus
set_inflight entries s =
    let kept = cap_inflight entries in
    record s { inflight = kept; inflight_builds = pos (length kept) }

-- `InflightCount`.
unfoldable pub inflight_count : BuildProjectStatus → ℕ
inflight_count s = length s.inflight

-- The loop of `AdoptLegacyInflight`: entries `i`, `i + 1`, … up to `n` more.
unfoldable pub adopted_entries : Time → ℕ → ℕ → List InflightBuild
adopted_entries at i zero = []
adopted_entries at i (suc n) =
    record { id = text "adopted-" ++ itoa_ℕ i; since = at } ∷ adopted_entries at (i + 1) n

-- `AdoptLegacyInflight`: the new status, and whether there was something to adopt.
unfoldable pub adopt_legacy_inflight : BuildProjectStatus → BuildProjectStatus × Bool
unfolding set_inflight cap_inflight adopted_entries
adopt_legacy_inflight s =
    if ltb 0 (length s.inflight) || leb_ℤ s.inflight_builds (pos 0)
    then (s, false)
    else elim s.last_build_time [
      | none ↦ (s, false)
      | some at ↦
          let n = pos_part s.inflight_builds in
          let n' = if ltb inflight_cap n then inflight_cap else n in
          (set_inflight (adopted_entries at 0 n') s, true)
    ]

-- `ExpireInflight`, with `expired` counted before anything is copied.
unfoldable pub expire_inflight : List InflightBuild → Time → Duration → List InflightBuild × ℕ
expire_inflight inflight now max_age =
    let expired = count_if (λ b. ltb_ℤ max_age (time_sub now b.since)) inflight in
    if expired == 0
    then (inflight, 0)
    else (filter (λ b. leb_ℤ (time_sub now b.since) max_age) inflight, expired)

-- The digest of a token is `crypto/sha256`'s, a parameter.
module _ (sha256 : Bytes → Bytes) where
  -- `InflightID`.
  unfoldable pub inflight_id : Bytes → Bytes
  unfolding hex_encode
  inflight_id token = hex_encode (sha256 token)

  -- `StartInflight`.
  unfoldable pub start_inflight : List InflightBuild → Bytes → Time → List InflightBuild
  start_inflight inflight token now =
      cap_inflight (inflight ++ (record { id = inflight_id token; since = now } ∷ []))

  -- The choice of `drop` in `endInflight`; `none` is -1.
  unfoldable pub drop_index : List InflightBuild → Bytes → Option Time → Option ℕ
  drop_index inflight token cutoff =
      if is_empty token
      then elim cutoff [
        | none ↦ some zero
        | some c ↦ elim (find_index (λ b. ltb b.since c) inflight) [
          | none ↦ some zero
          | some i ↦ some i
        ]
      ]
      else let hashed = inflight_id token in find_index (λ b. bytes_eq b.id hashed) inflight

  -- `endInflight`; `EndInflight` passes no cutoff, `EndInflightBefore` passes one.
  unfoldable pub end_inflight_at :
      List InflightBuild → Bytes → Option Time → List InflightBuild × Bool
  end_inflight_at [] token cutoff = ([], false)
  end_inflight_at (x ∷ xs) token cutoff = elim (drop_index (x ∷ xs) token cutoff) [
    | none ↦ (x ∷ xs, false)
    | some i ↦ (take i (x ∷ xs) ++ drop (suc i) (x ∷ xs), true)
  ]

  unfoldable pub end_inflight : List InflightBuild → Bytes → List InflightBuild × Bool
  unfolding end_inflight_at
  end_inflight inflight token = end_inflight_at inflight token none

  unfoldable pub end_inflight_before : List InflightBuild → Bytes → Time → List InflightBuild × Bool
  unfolding end_inflight_at
  end_inflight_before inflight token cutoff = end_inflight_at inflight token (some cutoff)
