-- ===== src/Policy.antt =====
-- Who may build and with which defaults: the repository allowlist of internal/identity/identity.go and the
-- rules of internal/projectdefaults/projectdefaults.go. `path.Match` is a parameter of the rules.
pub mod Rules
use buildkit_operator.Base.{
  ℕ, zero, suc, ◌≡◌, Bool, true, false, ◌||◌, ◌&&◌, not, if◌then◌else◌, ℤ, pos, ltb_ℤ, Option, none,
  some, List, [], ◌∷◌, ◌++◌, is_empty, Bytes, text, bytes_eq, has_prefix, cut_suffix, trim_space,
}
use buildkit_operator.Api.Types.{
  BuildProjectSpec, tier_hot, tier_warm, s3_cache_cadence, s3_cache_always, s3_cache_never,
}
use buildkit_operator.Router.{normalize_repo}

-- A prefix pattern: the repository itself, or anything below it.
unfoldable pub is_below : Bytes → Bytes → Bool
is_below prefix repo = bytes_eq repo prefix || has_prefix repo (prefix ++ text "/")

-- One entry of the allowlist, in the loop of `AllowRepo`.
unfoldable pub entry_allows : Bytes → Bytes → Bool
entry_allows entry repo =
    if bytes_eq entry (text "*") then true else elim (cut_suffix entry (text "/*")) [
      | some prefix ↦ is_below prefix repo
      | none ↦ bytes_eq repo entry
    ]

unfoldable pub some_allows : List Bytes → Bytes → Bool
some_allows [] repo = false
some_allows (e ∷ es) repo = if entry_allows e repo then true else some_allows es repo

-- `AllowRepo`: an empty allowlist allows every verified repository.
unfoldable pub allow_repo : List Bytes → Bytes → Bool
allow_repo allowlist repo =
    if is_empty allowlist then true else some_allows allowlist (normalize_repo repo)

-- `normalizeAllowlist`.
unfoldable pub normalize_entry : Bytes → Bytes
normalize_entry e = if bytes_eq e (text "*") then text "*" else elim (cut_suffix e (text "/*")) [
  | some prefix ↦ normalize_repo prefix ++ text "/*"
  | none ↦ normalize_repo e
]

unfoldable pub normalize_allowlist : List Bytes → List Bytes
normalize_allowlist [] = []
normalize_allowlist (e ∷ es) =
    let rest = normalize_allowlist es in
    let e' = trim_space e in if is_empty e' then rest else normalize_entry e' ∷ rest

-- `Rule`.
pub record Rule : Type 0 where
  pub repo : Bytes
  pub name : Bytes
  pub arch : Bytes
  pub tier : Bytes
  pub idle_timeout_sec : ℤ
  pub cache_volume_gi : ℤ
  pub s3_cache : Bytes

-- `matchRepo`.
unfoldable pub match_repo : Bytes → Bytes → Bool
match_repo pattern' repo =
    if is_empty pattern' || bytes_eq pattern' (text "*")
    then true
    else elim (cut_suffix pattern' (text "/*")) [
      | some prefix ↦ is_below prefix repo
      | none ↦ bytes_eq repo pattern'
    ]

-- What `Load` finds wrong with a rule.
pub data RuleError : Type 0 where
  bad_name bad_arch bad_tier bad_s3_cache negative : RuleError

-- A value that is unset or one of those named.
unfoldable pub is_one_of : List Bytes → Bytes → Bool
is_one_of [] s = is_empty s
is_one_of (t ∷ ts) s = bytes_eq s t || is_one_of ts s

abbrev pub set_text : Bytes → Bytes → Bytes
set_text value old = if is_empty value then old else value

abbrev pub set_number : ℤ → ℤ → ℤ
set_number value old = if ltb_ℤ (pos 0) value then value else old

-- The fields that a rule seeds.
unfoldable pub seed : Rule → BuildProjectSpec → BuildProjectSpec
seed r spec = record spec {
  tier = set_text r.tier spec.tier;
  idle_timeout_sec = set_number r.idle_timeout_sec spec.idle_timeout_sec;
  cache_volume_gi = set_number r.cache_volume_gi spec.cache_volume_gi;
  s3_cache_policy = set_text r.s3_cache spec.s3_cache_policy;
}

-- `path.Match`: does the pattern accept the name, or is the pattern malformed?
module _ (path_match : Bytes → Bytes → Option Bool) where
  -- The checks of one rule by `Load`.
  unfoldable pub check_rule : Rule → Option RuleError
  check_rule r =
      let malformed : Bool = elim (path_match r.name (text "probe")) [
        | none ↦ true
        | some _ ↦ false
      ] in
      if not (is_empty r.name) && malformed
      then some bad_name
      else if not (is_one_of (text "amd64" ∷ text "arm64" ∷ []) r.arch)
      then some bad_arch
      else if not (is_one_of (tier_hot ∷ tier_warm ∷ []) r.tier)
      then some bad_tier
      else if not (is_one_of (s3_cache_cadence ∷ s3_cache_always ∷ s3_cache_never ∷ []) r.s3_cache)
      then some bad_s3_cache
      else if ltb_ℤ r.idle_timeout_sec (pos 0) || ltb_ℤ r.cache_volume_gi (pos 0)
      then some negative
      else none

  -- The loop of `Load`: the first rule that is wrong, with its number.
  unfoldable pub check_rules : ℕ → List Rule → Option (ℕ × RuleError)
  check_rules i [] = none
  check_rules i (r ∷ rs) = elim (check_rule r) [
    | some e ↦ some (i, e)
    | none ↦ check_rules (suc i) rs
  ]

  -- `match`; an error of `path.Match` reads as false.
  unfoldable pub match_name : Bytes → Bytes → Bool
  match_name pattern' value =
      if is_empty pattern'
      then true
      else elim (path_match pattern' value) [ none ↦ false | some b ↦ b ]

  unfoldable pub rule_matches : Rule → BuildProjectSpec → Bool
  rule_matches r spec =
      match_repo r.repo spec.repo
      && match_name r.name spec.name
      && (is_empty r.arch || bytes_eq r.arch spec.arch)

  -- `Apply`: the first rule that matches.
  unfoldable pub apply_rules : List Rule → BuildProjectSpec → BuildProjectSpec
  apply_rules [] spec = spec
  apply_rules (r ∷ rs) spec = if rule_matches r spec then seed r spec else apply_rules rs spec

  -- A missing configuration changes nothing.
  unfoldable pub apply_config : Option (List Rule) → BuildProjectSpec → BuildProjectSpec
  apply_config none spec = spec
  apply_config (some rules) spec = apply_rules rules spec
