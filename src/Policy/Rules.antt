-- ===== src/Policy/Rules.antt =====
-- `Load` and `Apply` of internal/projectdefaults/projectdefaults.go: which rule decides, and what it leaves.
use buildkit_operator.Base.{
  ℕ, suc, ◌≡◌, inl, inr, Bool, true, false, pos, ltb_ℤ, Option, none, List, [], ◌∷◌, ◌++◌, All,
  Bytes, arith, Bool-cases, Option-cases,
}
use buildkit_operator.Api.Types.{
  BuildProjectSpec, tier_hot, tier_warm, s3_cache_cadence, s3_cache_always, s3_cache_never,
}
use buildkit_operator.Policy.{
  Rule, is_one_of, set_text, seed, check_rule, check_rules, rule_matches, apply_rules,
}

module _ (path_match : Bytes → Bytes → Option Bool) where
  -- If no rule before it matches and a rule matches, the spec is seeded by that rule alone.
  pub apply_rules-first :
      (before : List Rule) (r : Rule) (after : List Rule) (spec : BuildProjectSpec)
      → All (λ (x : Rule). rule_matches path_match x spec ≡ false) before
      → rule_matches path_match r spec ≡ true
      → apply_rules path_match (before ++ (r ∷ after)) spec ≡ seed r spec
  unfolding apply_rules
  apply_rules-first [] r after spec miss hit = rw hit
  apply_rules-first (x ∷ xs) r after spec miss hit =
      rw miss.0 (apply_rules-first xs r after spec miss.1 hit)

  -- A spec whose seeded fields have the values that the API admits, if they are set.
  pub record IsValid (s : BuildProjectSpec) : Type 0 where
    pub tier : is_one_of (tier_hot ∷ tier_warm ∷ []) s.tier ≡ true
    pub cache :
        is_one_of (s3_cache_cadence ∷ s3_cache_always ∷ s3_cache_never ∷ []) s.s3_cache_policy
        ≡ true
    pub idle : ltb_ℤ s.idle_timeout_sec (pos 0) ≡ false
    pub volume : ltb_ℤ s.cache_volume_gi (pos 0) ≡ false

  set_text-is_one_of :
      (ts : List Bytes) (value old : Bytes)
      → is_one_of ts value ≡ true
      → is_one_of ts old ≡ true
      → is_one_of ts (set_text value old) ≡ true
  set_text-is_one_of ts [] old h k = k
  set_text-is_one_of ts (c ∷ cs) old h k = h

  seed-IsValid :
      (r : Rule) (s : BuildProjectSpec)
      → check_rule path_match r ≡ none
      → IsValid s
      → IsValid (seed r s)
  unfolding check_rule seed
  seed-IsValid r s ok v = record {
    tier = set_text-is_one_of (tier_hot ∷ tier_warm ∷ []) r.tier s.tier (ground arith) v.tier;
    cache =
        set_text-is_one_of (s3_cache_cadence ∷ s3_cache_always ∷ s3_cache_never ∷ []) r.s3_cache
          s.s3_cache_policy (ground arith) v.cache;
    idle = ground (arith, v.idle);
    volume = ground (arith, v.volume);
  }

  -- Rules that pass the checks of Load turn a spec whose tier, cache policy, idle time and volume
  -- size are unset or admitted into a spec of which this holds too, for any path.Match.
  pub apply_rules-IsValid :
      (i : ℕ) (rules : List Rule) (spec : BuildProjectSpec)
      → check_rules path_match i rules ≡ none
      → IsValid spec
      → IsValid (apply_rules path_match rules spec)
  unfolding apply_rules check_rules
  apply_rules-IsValid i [] spec ok v = v
  apply_rules-IsValid i (r ∷ rs) spec ok v = elim (Option-cases (check_rule path_match r)) [
    | inl fine ↦
        let later : check_rules path_match (suc i) rs ≡ none = cc (fine, ok) in
        elim (Bool-cases (rule_matches path_match r spec)) [
          | inl hit ↦ rw hit (seed-IsValid r spec fine v)
          | inr miss ↦ rw miss (apply_rules-IsValid (suc i) rs spec later v)
        ]
    | inr (e, bad) ↦ absurd (cc (bad, ok))
  ]
