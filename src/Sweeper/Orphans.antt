-- ===== src/Sweeper/Orphans.antt =====
-- The volumes that a sweep deletes.
use buildkit_operator.Base.{
  ℕ, ◌+◌, ◌≡◌, ◌≢◌, ◌≤◌, ◌<◌, refl, ap, inl, inr, true, false, pos, List, [], ◌∷◌, ◌++◌, Bytes,
  bytes_eq, bytes_eq_iff, has_prefix, All, Time, Duration, max_duration, time_sub-lt, arith,
  Bool-cases,
}
use buildkit_operator.Api.Types.{BuildProject}
use buildkit_operator.Router.{cache_pvc_name}
use buildkit_operator.Controller.Effects.{found}
use buildkit_operator.Sweeper.{
  CacheVolume, cache_pvc_prefix, is_live_cache, is_swept, sweep_volumes, sweep_grace, sweep,
}

module _ (bps : List BuildProject) (now : Bytes → Time) (w : ℕ) where
  -- A cache volume of no project, that is not going yet and is old enough.
  pub record IsOrphan (v : CacheVolume) : Type 0 where
    pub is_cache : has_prefix v.name cache_pvc_prefix ≡ true
    pub unowned : All (λ (bp : BuildProject). cache_pvc_name bp.spec.key ≢ v.name) bps
    pub stays : v.is_terminating ≡ false
    pub aged : v.created + w ≤ now v.name

is_live_cache-unowned :
    (bps : List BuildProject) (name : Bytes)
    → is_live_cache bps name ≡ false
    → All (λ (bp : BuildProject). cache_pvc_name bp.spec.key ≢ name) bps
unfolding is_live_cache
is_live_cache-unowned [] name h = tt
is_live_cache-unowned (bp ∷ bps) name h =
    elim (Bool-cases (bytes_eq (cache_pvc_name bp.spec.key) name)) [
      | inl same ↦ absurd (ground arith)
      | inr other ↦ (
        (λ e. cc (other, (bytes_eq_iff (cache_pvc_name bp.spec.key) name).1 e)),
        is_live_cache-unowned bps name (ground arith),
      )
    ]

is_live_cache_of_unowned :
    (bps : List BuildProject) (name : Bytes)
    → All (λ (bp : BuildProject). cache_pvc_name bp.spec.key ≢ name) bps
    → is_live_cache bps name ≡ false
unfolding is_live_cache
is_live_cache_of_unowned [] name h = refl
is_live_cache_of_unowned (bp ∷ bps) name h =
    elim (Bool-cases (bytes_eq (cache_pvc_name bp.spec.key) name)) [
      | inl same ↦ absurd (h.0 ((bytes_eq_iff (cache_pvc_name bp.spec.key) name).0 same))
      | inr other ↦ rw other (is_live_cache_of_unowned bps name h.1)
    ]

module _ (bps : List BuildProject) (now : Bytes → Time) (w : ℕ) (positive : 0 < w)
    (small : w ≤ max_duration) where
  is_swept-IsOrphan : (v : CacheVolume) → is_swept bps (pos w) now v ≡ true → IsOrphan bps now w v
  unfolding is_swept
  is_swept-IsOrphan v h = record {
    is_cache = ground arith;
    unowned = is_live_cache-unowned bps v.name (ground arith);
    stays = ground arith;
    aged = ground (arith, time_sub-lt (now v.name) v.created w small positive);
  }

  IsOrphan-is_swept : (v : CacheVolume) → IsOrphan bps now w v → is_swept bps (pos w) now v ≡ true
  unfolding is_swept
  IsOrphan-is_swept v h = ground (
    arith,
    h.is_cache,
    is_live_cache_of_unowned bps v.name h.unowned,
    h.stays,
    h.aged,
    time_sub-lt (now v.name) v.created w small positive,
  )

  sweep_volumes-IsOrphan :
      (vs : List CacheVolume) → All (IsOrphan bps now w) (sweep_volumes bps (pos w) now vs)
  unfolding sweep_volumes
  sweep_volumes-IsOrphan [] = tt
  sweep_volumes-IsOrphan (v ∷ vs) = elim (Bool-cases (is_swept bps (pos w) now v)) [
    | inl goes ↦ rw goes (is_swept-IsOrphan v goes, sweep_volumes-IsOrphan vs)
    | inr stays ↦ rw stays (sweep_volumes-IsOrphan vs)
  ]

  sweep_volumes-append :
      (xs ys : List CacheVolume)
      → sweep_volumes bps (pos w) now (xs ++ ys)
        ≡ sweep_volumes bps (pos w) now xs ++ sweep_volumes bps (pos w) now ys
  unfolding sweep_volumes
  sweep_volumes-append [] ys = refl
  sweep_volumes-append (x ∷ xs) ys = elim (Bool-cases (is_swept bps (pos w) now x)) [
    | inl goes ↦ rw goes (ap (◌∷◌ x) (sweep_volumes-append xs ys))
    | inr stays ↦ rw stays (sweep_volumes-append xs ys)
  ]

  module _ (setting : Duration) (set : sweep_grace setting ≡ pos w) where
    -- Every volume that a sweep deletes is a cache volume, of no listed project, not terminating,
    -- and at least the grace old, if the grace in force is positive and at most the largest
    -- duration.
    pub sweep-IsOrphan :
        (vs : List CacheVolume)
        → All (IsOrphan bps now w) (sweep setting now (found bps) (found vs))
    unfolding sweep
    sweep-IsOrphan vs = rw set (sweep_volumes-IsOrphan vs)

    -- Under the same conditions on the grace, a sweep over a list with such a volume in it deletes
    -- that volume, between what it deletes of the list before and of the list behind.
    pub sweep-Reclaims :
        (before : List CacheVolume) (v : CacheVolume) (after : List CacheVolume)
        → IsOrphan bps now w v
        → sweep setting now (found bps) (found (before ++ (v ∷ after)))
          ≡ sweep setting now (found bps) (found before)
            ++ (v ∷ sweep setting now (found bps) (found after))
    unfolding sweep sweep_volumes
    sweep-Reclaims before v after h =
        rw (set, sweep_volumes-append before (v ∷ after), IsOrphan-is_swept v h) refl
