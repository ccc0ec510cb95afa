-- ===== src/Api/Defaults.antt =====
-- api/v1alpha1/defaults.go: unset spec fields get their defaults.
use buildkit_operator.Base.{
  refl, Bool, true, ◌⊎◌, inl, inr, Bool-cases, [], ◌∷◌, ◌≡◌, false, if◌then◌else◌, ℤ, pos, eqb_ℤ,
  is_empty, Bytes, arith,
}
use buildkit_operator.Api.Types.{BuildProjectSpec, tier_warm, profile_rootless, s3_cache_cadence}

abbrev pub default_cache_volume_gi : ℤ
default_cache_volume_gi = pos 60

abbrev pub default_idle_timeout_sec : ℤ
default_idle_timeout_sec = pos 900

abbrev or_text : Bytes → Bytes → Bytes
or_text s d = if is_empty s then d else s

abbrev or_number : ℤ → ℤ → ℤ
or_number n d = if eqb_ℤ n (pos 0) then d else n

-- `ApplyDefaults`.
unfoldable pub apply_defaults : BuildProjectSpec → BuildProjectSpec
apply_defaults s = record s {
  cache_volume_gi = or_number s.cache_volume_gi default_cache_volume_gi;
  tier = or_text s.tier tier_warm;
  idle_timeout_sec = or_number s.idle_timeout_sec default_idle_timeout_sec;
  security_profile = or_text s.security_profile profile_rootless;
  s3_cache_policy = or_text s.s3_cache_policy s3_cache_cadence;
}

-- No defaulted field is left unset.
pub record IsDefaulted (s : BuildProjectSpec) : Type 0 where
  pub sized : eqb_ℤ s.cache_volume_gi (pos 0) ≡ false
  pub tiered : is_empty s.tier ≡ false
  pub timed : eqb_ℤ s.idle_timeout_sec (pos 0) ≡ false
  pub hardened : is_empty s.security_profile ≡ false
  pub cached : is_empty s.s3_cache_policy ≡ false

pub apply_defaults-IsDefaulted : (s : BuildProjectSpec) → IsDefaulted (apply_defaults s)
unfolding apply_defaults
apply_defaults-IsDefaulted s = ground arith

-- What is set already stays.
pub apply_defaults_id : (s : BuildProjectSpec) → IsDefaulted s → apply_defaults s ≡ s
unfolding apply_defaults
apply_defaults_id s d = ground arith

-- Applying the defaults to a spec that has them changes nothing.
pub apply_defaults_again :
    (s : BuildProjectSpec) → apply_defaults (apply_defaults s) ≡ apply_defaults s
apply_defaults_again s = apply_defaults_id (apply_defaults s) (apply_defaults-IsDefaulted s)

-- A field that was unset has its default, and a field that was set is as it was.
abbrev Filled {ℓ} : {A : Type ℓ} → Bool → A → A → A → Type ℓ
Filled unset before default after =
    ((unset ≡ true) × (after ≡ default)) ⊎ ((unset ≡ false) × (after ≡ before))

pub record Fills (s t : BuildProjectSpec) : Type 0 where
  pub tier : Filled (is_empty s.tier) s.tier tier_warm t.tier
  pub cache :
      Filled (is_empty s.s3_cache_policy) s.s3_cache_policy s3_cache_cadence t.s3_cache_policy
  pub profile :
      Filled (is_empty s.security_profile) s.security_profile profile_rootless t.security_profile
  pub size : Filled (eqb_ℤ s.cache_volume_gi (pos 0)) s.cache_volume_gi (pos 60) t.cache_volume_gi
  pub idle :
      Filled (eqb_ℤ s.idle_timeout_sec (pos 0)) s.idle_timeout_sec (pos 900) t.idle_timeout_sec
  pub identity : (t.key ≡ s.key) × (t.repo ≡ s.repo) × (t.fanout ≡ s.fanout)

fill_text : (s d : Bytes) → Filled (is_empty s) s d (or_text s d)
fill_text [] d = inl (refl, refl)
fill_text (c ∷ cs) d = inr (refl, refl)

fill_number : (n d : ℤ) → Filled (eqb_ℤ n (pos 0)) n d (or_number n d)
fill_number n d = elim (Bool-cases (eqb_ℤ n (pos 0))) [
  | inl unset ↦ inl (unset, rw unset)
  | inr is_set ↦ inr (is_set, rw is_set)
]

-- Each defaulted field (tier, cache policy, security profile, volume size, idle time) has its
-- default if it was unset and stays as it was if not, and key, repository and fanout stay.
pub apply_defaults-Fills : (s : BuildProjectSpec) → Fills s (apply_defaults s)
unfolding apply_defaults
apply_defaults-Fills s = record {
  tier = fill_text s.tier tier_warm;
  cache = fill_text s.s3_cache_policy s3_cache_cadence;
  profile = fill_text s.security_profile profile_rootless;
  size = fill_number s.cache_volume_gi default_cache_volume_gi;
  idle = fill_number s.idle_timeout_sec default_idle_timeout_sec;
  identity = (refl, refl, refl);
}
