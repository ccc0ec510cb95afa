-- ===== src/Identity.antt =====
-- internal/identity/identity.go: which providers a verifier knows, and how each maps the claims of a token. The
-- parsing of URLs is an argument.
pub mod Registry
pub mod Tokens
pub mod Genuine
use buildkit_operator.Base.{
  ℕ, Bool, true, false, ◌&&◌, ◌||◌, ◌==◌, not, if◌then◌else◌, Option, none, some, List, [], ◌∷◌,
  ◌++◌, is_empty, Bytes, text, bytes_eq, has_prefix, to_lower, trim_space, trim_right_slashes, Dict,
  lookup, insert,
}
use buildkit_operator.Router.{normalize_repo}
use buildkit_operator.Policy.{normalize_allowlist}

-- `Provider`; `kind` is its `Type`.
pub record Provider : Type 0 where
  pub kind : Bytes
  pub issuer : Bytes
  pub audience : Bytes
  pub repo_claim : Bytes
  pub host : Bytes
  pub strict_unprotected_refs : Bool

-- `Config`.
pub record OidcConfig : Type 0 where
  pub providers : List Provider
  pub repo_allowlist : List Bytes
  pub disable : Bool

-- A value of JSON; any but a text or a test stands by what `%v` prints of it.
pub data Claim : Type 0 where
  word : Bytes → Claim
  flag : Bool → Claim
  null : Claim
  printed : Bytes → Claim

-- `asString`.
abbrev pub as_string : Claim → Bytes
as_string (word s) = s
as_string (flag true) = text "true"
as_string (flag false) = text "false"
as_string null = []
as_string (printed s) = s

-- `asString(claims[name])`; a claim that is missing is nil.
unfoldable pub claim_text : Dict Claim → Bytes → Bytes
claim_text claims name = elim (lookup name claims) [ none ↦ [] | some c ↦ as_string c ]

-- `claimMapper`.
pub record Mapper : Type 0 where
  pub repo_claim : Bytes
  pub host : Bytes
  pub untrusted : Dict Claim → Bool

-- `orDefault`.
abbrev pub or_default : Bytes → Bytes → Bytes
or_default v def = if is_empty v then def else v

-- A run on a pull request.
abbrev pub on_pull_request : Dict Claim → Bool
on_pull_request claims = has_prefix (claim_text claims (text "ref")) (text "refs/pull/")

-- `url.Parse(issuer).Host`, where the issuer can be parsed.
module _ (url_host : Bytes → Option Bytes) where
  -- `hostFromIssuer`.
  unfoldable pub host_from_issuer : Bytes → Bytes
  host_from_issuer issuer = elim (url_host issuer) [
    | none ↦ trim_right_slashes issuer
    | some h ↦ if is_empty h then trim_right_slashes issuer else h
  ]

  abbrev pub host_of : Provider → Bytes
  host_of p = if is_empty p.host then host_from_issuer p.issuer else p.host

  -- `builtin`.
  unfoldable pub builtin : Provider → Option Mapper
  builtin p =
      let kind = to_lower p.kind in
      if bytes_eq kind (text "github")
      then some (record {
        repo_claim = or_default p.repo_claim (text "repository");
        host = if is_empty p.host then text "github.com" else p.host;
        untrusted = on_pull_request;
      })
      else if bytes_eq kind (text "gitlab")
      then some (record {
        repo_claim = or_default p.repo_claim (text "project_path");
        host = host_of p;
        untrusted = λ claims.
            p.strict_unprotected_refs
            && bytes_eq (claim_text claims (text "ref_protected")) (text "false");
      })
      else if bytes_eq kind (text "forgejo") || bytes_eq kind (text "gitea")
      then some (record {
        repo_claim = or_default p.repo_claim (text "repository");
        host = host_of p;
        untrusted = on_pull_request;
      })
      else if is_empty p.repo_claim || is_empty (host_of p)
      then none
      else some
          (record { repo_claim = p.repo_claim; host = host_of p; untrusted = λ claims. false })

-- `providerState`: `known` once the issuer has been discovered.
pub record ProviderState : Type 0 where
  pub cfg : Provider
  pub mapper : Mapper
  pub known : Bool

-- `Verifier`.
pub record Verifier : Type 0 where
  pub by_issuer : Dict ProviderState
  pub allowlist : List Bytes

-- What `NewVerifier` refuses.
pub data ConfigError : Type 0 where
  incomplete unknown_kind duplicate : ConfigError

pub data Registered : Type 0 where
  refused : ConfigError → Registered
  registered : Dict ProviderState → Registered

-- What `NewVerifier` returns: no verifier, an error, or a verifier.
pub data Built : Type 0 where
  off : Built
  bad : ConfigError → Built
  built : Verifier → Built

module _ (url_host : Bytes → Option Bytes) where
  -- The loop of `NewVerifier`.
  unfoldable pub register_all : List Provider → Dict ProviderState → Registered
  register_all [] m = registered m
  register_all (p ∷ ps) m =
      let iss = trim_right_slashes p.issuer in
      if is_empty p.issuer || is_empty p.audience
      then refused incomplete
      else elim (builtin url_host p) [
        | none ↦ refused unknown_kind
        | some mapper ↦ elim (lookup iss m) [
          | some dup ↦ refused duplicate
          | none ↦
              register_all ps (insert iss (record { cfg = p; mapper = mapper; known = false }) m)
        ]
      ]

  -- `NewVerifier`.
  unfoldable pub new_verifier : OidcConfig → Built
  new_verifier c =
      if c.disable || is_empty c.providers then off else elim (register_all c.providers []) [
        | refused e ↦ bad e
        | registered m ↦
            built (record { by_issuer = m; allowlist = normalize_allowlist c.repo_allowlist })
      ]
