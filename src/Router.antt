-- ===== src/Router.antt =====
-- internal/router/router.go: the cache identity that routes a build to its daemon.
pub mod Slashes
pub mod Urls
pub mod Keys
use buildkit_operator.Base.{
  ℕ, zero, suc, ◌+◌, Bool, true, false, ◌&&◌, ◌||◌, not, ltb, leb, ◌==◌, if◌then◌else◌, ℤ, pos,
  Option, none, some, List, [], ◌∷◌, ◌++◌, map, length, take, drop, find_index, is_empty, Bytes,
  text, bytes_eq, has_prefix, trim_prefix, trim_suffix, to_lower, trim_space, itoa, hex_encode,
}

-- The test of `strings.IndexByte`.
unfoldable pub index_byte : Bytes → ℕ → Option ℕ
index_byte s c = find_index (λ x. x == c) s

-- `isAllDigits`.
unfoldable pub all_digit_bytes : Bytes → Bool
all_digit_bytes [] = true
all_digit_bytes (c ∷ cs) = not (ltb c b'0' || ltb b'9' c) && all_digit_bytes cs

unfoldable pub is_all_digits : Bytes → Bool
unfolding all_digit_bytes
is_all_digits s = all_digit_bytes s && not (is_empty s)

-- The loop over the schemes.
unfoldable pub strip_schemes : Bytes → Bytes
strip_schemes s =
    let s1 = trim_prefix s (text "https://") in
    let s2 = trim_prefix s1 (text "http://") in
    let s3 = trim_prefix s2 (text "git://") in trim_prefix s3 (text "ssh://")

-- A leading `user@` goes, if no slash stands before it.
unfoldable pub strip_user : Bytes → Bytes
strip_user s = elim (index_byte s b'@') [
  | none ↦ s
  | some at ↦ elim (index_byte s b'/') [
    | none ↦ drop (suc at) s
    | some slash ↦ if ltb at slash then drop (suc at) s else s
  ]
]

-- An explicit port after the first colon goes.
unfoldable pub strip_port : Bytes → Bytes
strip_port s = elim (index_byte s b':') [
  | none ↦ s
  | some i ↦
      let rest = drop (suc i) s in
      elim (index_byte rest b'/') [
        | some end ↦
            let port = take end rest in
            if not (is_empty port) && is_all_digits port then take i s ++ drop end rest else s
        | none ↦ if not (is_empty rest) && is_all_digits rest then take i s else s
      ]
]

-- `strings.ReplaceAll(s, ":", "/")`.
unfoldable pub colons_to_slashes : Bytes → Bytes
colons_to_slashes s = map (λ c. if c == b':' then b'/' else c) s

-- `strings.Contains(s, "//")`.
unfoldable pub has_double_slash : Bytes → Bool
has_double_slash [] = false
has_double_slash (c ∷ []) = false
has_double_slash (c ∷ d ∷ cs) = (c == b'/' && d == b'/') || has_double_slash (d ∷ cs)

-- `strings.ReplaceAll(s, "//", "/")`: the pairs from the left, which do not overlap.
unfoldable pub halve_slashes : Bytes → Bytes
halve_slashes [] = []
halve_slashes (c ∷ []) = c ∷ []
halve_slashes (c ∷ d ∷ cs) =
    let paired = b'/' ∷ halve_slashes cs in
    let single = c ∷ halve_slashes (d ∷ cs) in if c == b'/' && d == b'/' then paired else single

-- The loop `for strings.Contains(s, "//")`, on fuel.
unfoldable pub collapse_slashes : ℕ → Bytes → Bytes
collapse_slashes zero s = s
collapse_slashes (suc fuel) s = elim (has_double_slash s) [
  | true ↦ collapse_slashes fuel (halve_slashes s)
  | false ↦ s
]

-- The end of `NormalizeRepo`, from the rewriting of colons on.
unfoldable pub tidy_path : Bytes → Bytes
tidy_path s =
    let s1 = colons_to_slashes s in
    let s2 = trim_suffix s1 (text "/") in
    let s3 = trim_suffix s2 (text ".git") in
    let s4 = trim_suffix s3 (text "/") in collapse_slashes (length s4) s4

-- `NormalizeRepo`.
unfoldable pub normalize_repo : Bytes → Bytes
normalize_repo repo =
    tidy_path (strip_port (strip_user (strip_schemes (trim_space (to_lower repo)))))

-- `NormalizeTarget`.
unfoldable pub normalize_target : Bytes → Bytes
normalize_target target =
    let t = trim_space (to_lower target) in if is_empty t then text "default" else t

-- `NormalizeName`.
unfoldable pub normalize_name : Bytes → Bytes
normalize_name name = trim_space (to_lower name)

-- `NormalizeArch`.
unfoldable pub normalize_arch : Bytes → Bytes
normalize_arch arch =
    let a = trim_space (to_lower arch) in
    if bytes_eq a (text "x86_64") || bytes_eq a (text "amd64")
    then text "amd64"
    else if bytes_eq a (text "aarch64") || bytes_eq a (text "arm64")
    then text "arm64"
    else a

-- The text that `ProjectKey` hashes.
unfoldable pub project_seed : Bytes → Bytes → Bytes → Bytes → Bytes
project_seed repo name target arch =
    let n = normalize_name name in
    let named =
      if is_empty n then normalize_repo repo else normalize_repo repo ++ (0 ∷ (text "n:" ++ n)) in
    named ++ (0 ∷ (normalize_target target ++ (0 ∷ normalize_arch arch)))

-- `ProjectKey`, over the digest of `crypto/sha256`.
unfoldable pub project_key : (Bytes → Bytes) → Bytes → Bytes → Bytes → Bytes → Bytes
project_key sha256 repo name target arch =
    text "p" ++ take 16 (hex_encode (sha256 (project_seed repo name target arch)))

-- `DaemonName`.
unfoldable pub daemon_name : Bytes → Bytes
daemon_name key = text "buildkitd-" ++ key

-- `ForkKey`.
unfoldable pub fork_key : Bytes → Bytes
fork_key canonical_key = text "fork" ++ canonical_key

-- `IsForkKey`.
unfoldable pub is_fork_key : Bytes → Bool
unfolding has_prefix
is_fork_key key = has_prefix key (text "fork")

-- `CloneKey`.
unfoldable pub clone_key : Bytes → ℤ → Bytes
clone_key canonical_key i = text "c" ++ (itoa i ++ canonical_key)

-- `CachePVCName`.
unfoldable pub cache_pvc_name : Bytes → Bytes
unfolding daemon_name
cache_pvc_name key = text "cache-" ++ (daemon_name key ++ text "-0")

-- `ServiceFQDN`.
unfoldable pub service_fqdn : Bytes → Bytes → Bytes
unfolding daemon_name
service_fqdn key namespace = daemon_name key ++ (text "." ++ (namespace ++ text ".svc"))

-- `Endpoint`.
unfoldable pub endpoint : Bytes → Bytes → ℤ → Bytes
unfolding service_fqdn
endpoint key namespace port =
    text "tcp://" ++ (service_fqdn key namespace ++ (text ":" ++ itoa port))

-- `EndpointHost`.
unfoldable pub endpoint_host : Bytes → ℤ → Bytes
endpoint_host host port = text "tcp://" ++ (host ++ (text ":" ++ itoa port))
