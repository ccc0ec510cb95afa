-- ===== src/Sweeper.antt =====
-- internal/controller/pvc_sweeper.go: the sweep over cache volumes.
pub mod Orphans
use buildkit_operator.Base.{
  ℕ, ◌*◌, ◌≡◌, Bool, true, false, ◌||◌, ◌&&◌, not, if◌then◌else◌, ℤ, pos, ltb_ℤ, List, [], ◌∷◌,
  ◌++◌, Bytes, text, bytes_eq, has_prefix, Time, Duration, minute, time_sub,
}
use buildkit_operator.Api.Types.{BuildProject}
use buildkit_operator.Router.{cache_pvc_name, daemon_name}
use buildkit_operator.Controller.Effects.{Read, found, missing, unreadable}

-- A PersistentVolumeClaim as far as the sweep looks at it.
pub record CacheVolume : Type 0 where
  pub name : Bytes
  pub is_terminating : Bool
  pub created : Time

-- `interval`, over the setting.
unfoldable pub sweep_interval : Duration → Duration
sweep_interval setting = if ltb_ℤ (pos 0) setting then setting else pos (15 * minute)

-- `grace`, over the setting.
unfoldable pub sweep_grace : Duration → Duration
sweep_grace setting = if ltb_ℤ (pos 0) setting then setting else pos (10 * minute)

-- `cachePVCPrefix`.
unfoldable pub cache_pvc_prefix : Bytes
cache_pvc_prefix = text "cache-" ++ daemon_name []

-- The set of volumes that should exist, asked for one name.
unfoldable pub is_live_cache : List BuildProject → Bytes → Bool
is_live_cache [] name = false
is_live_cache (bp ∷ bps) name = bytes_eq (cache_pvc_name bp.spec.key) name || is_live_cache bps name

-- The tests of the loop, in its order; the clock is read for each volume.
unfoldable pub is_swept : List BuildProject → Duration → (Bytes → Time) → CacheVolume → Bool
is_swept bps grace now v =
    if not (has_prefix v.name cache_pvc_prefix)
    then false
    else if is_live_cache bps v.name
    then false
    else if v.is_terminating
    then false
    else not (ltb_ℤ (time_sub (now v.name) v.created) grace)

-- The loop: the volumes it asks to delete; what a deletion answers is only logged.
unfoldable pub sweep_volumes :
    List BuildProject → Duration → (Bytes → Time) → List CacheVolume → List CacheVolume
sweep_volumes bps grace now [] = []
sweep_volumes bps grace now (v ∷ vs) =
    let rest = sweep_volumes bps grace now vs in if is_swept bps grace now v then v ∷ rest else rest

-- `sweep`, over the answers to its two lists.
unfoldable pub sweep :
    Duration
    → (Bytes → Time)
    → Read (List BuildProject)
    → Read (List CacheVolume)
    → List CacheVolume
sweep setting now (found bps) (found vs) = sweep_volumes bps (sweep_grace setting) now vs
sweep setting now (found bps) _ = []
sweep setting now _ vs = []
