-- ===== src/Identity/Tokens.antt =====
-- internal/identity/identity.go and jwt.go: what a verifier makes of a token. The check of a token by go-oidc,
-- the parsing of JSON and base64 are arguments.
use buildkit_operator.Base.{
  ℕ, Bool, true, ◌&&◌, ◌==◌, not, if◌then◌else◌, Option, none, some, List, [], ◌∷◌, ◌++◌, is_empty,
  Bytes, text, trim_space, trim_right_slashes, Dict, lookup, insert,
}
use buildkit_operator.Router.{normalize_repo}
use buildkit_operator.Identity.{Claim, claim_text, Mapper, ProviderState, Verifier}

-- `strings.Split(s, sep)` at a byte.
abbrev pub split_at : ℕ → Bytes → List Bytes
split_at sep [] = [] ∷ []
split_at sep (c ∷ cs) =
    let rest = split_at sep cs in
    if c == sep then [] ∷ rest else elim rest [ [] ↦ (c ∷ []) ∷ [] | w ∷ ws ↦ (c ∷ w) ∷ ws ]

-- Why a token is refused.
pub data VerifyError : Type 0 where
  empty_token not_a_jwt not_base64 not_json no_issuer untrusted_issuer : VerifyError
  no_discovery not_verified bad_claims no_repository : VerifyError

-- `Identity`.
pub record VerifiedIdentity : Type 0 where
  pub issuer : Bytes
  pub repo : Bytes
  pub untrusted : Bool

pub data Verdict : Type 0 where
  denies : VerifyError → Verdict
  verifies : VerifiedIdentity → Verdict

pub data Issuer : Type 0 where
  unread : VerifyError → Issuer
  issuer : Bytes → Issuer

-- The claims of a token, and how they fail.
pub data Checked : Type 0 where
  wrong undecoded : Checked
  genuine : Dict Claim → Checked

-- `base64.RawURLEncoding`, the `iss` of a JSON text, and what go-oidc says: is the issuer discovered, and does
-- the token hold for an issuer and an audience?
pub record Oidc : Type 0 where
  pub decode : Bytes → Option Bytes
  pub read_iss : Bytes → Option Bytes
  pub discover : Bytes → Bool
  pub check : Bytes → Bytes → Bytes → Checked

module _ (o : Oidc) where
  -- The `iss` of the payload.
  unfoldable pub payload_issuer : Bytes → Issuer
  payload_issuer segment = elim (o.decode segment) [
    | none ↦ unread not_base64
    | some payload ↦ elim (o.read_iss payload) [
      | none ↦ unread not_json
      | some iss ↦ if is_empty iss then unread no_issuer else issuer iss
    ]
  ]

  -- `unverifiedIssuer`.
  unfoldable pub unverified_issuer : Bytes → Issuer
  unverified_issuer token = elim (split_at b'.' token) [
    | header ∷ payload ∷ signature ∷ [] ↦ payload_issuer payload
    | _ ↦ unread not_a_jwt
  ]

  -- The claims of a token that go-oidc accepts.
  unfoldable pub identity_of : Bytes → Mapper → Checked → Verdict
  identity_of iss mapper wrong = denies not_verified
  identity_of iss mapper undecoded = denies bad_claims
  identity_of iss mapper (genuine claims) =
      let path = claim_text claims mapper.repo_claim in
      if is_empty path
      then denies no_repository
      else verifies (record {
        issuer = iss;
        repo = normalize_repo (mapper.host ++ (text "/" ++ path));
        untrusted = mapper.untrusted claims;
      })

  -- The second half of `Verify`, for the state of the issuer's provider; a discovery that succeeds is kept.
  unfoldable pub verify_with : Bytes → Bytes → ProviderState → Verifier → Verifier × Verdict
  verify_with token iss ps v =
      if not ps.known && not (o.discover ps.cfg.issuer) then (v, denies no_discovery) else (
        record v {
          by_issuer = insert (trim_right_slashes iss) (record ps { known = true }) v.by_issuer;
        },
        identity_of iss ps.mapper (o.check ps.cfg.issuer ps.cfg.audience token),
      )

  -- `Verify`.
  unfoldable pub verify : Bytes → Verifier → Verifier × Verdict
  verify raw v =
      let token = trim_space raw in
      if is_empty token then (v, denies empty_token) else elim (unverified_issuer token) [
        | unread e ↦ (v, denies e)
        | issuer iss ↦ elim (lookup (trim_right_slashes iss) v.by_issuer) [
          | none ↦ (v, denies untrusted_issuer)
          | some ps ↦ verify_with token iss ps v
        ]
      ]
