-- ===== src/Identity/Genuine.antt =====
-- `Verify`: what stands behind an identity.
use buildkit_operator.Base.{
  ◌≡◌, refl, sym, ap, ◌∙◌, ◌⊎◌, inl, inr, true, false, ◌&&◌, not, Option, some, ◌++◌, is_empty, Has,
  Bytes, text, trim_space, trim_right_slashes, Dict, lookup, Bool-cases, Option-cases,
}
use buildkit_operator.Router.{normalize_repo}
use buildkit_operator.Identity.{
  Provider, OidcConfig, Claim, claim_text, Mapper, builtin, ProviderState, Verifier, built,
  new_verifier,
}
use buildkit_operator.Identity.Tokens.{
  VerifyError, empty_token, untrusted_issuer, no_discovery, no_repository, VerifiedIdentity,
  Verdict, denies, verifies, Issuer, unread, issuer, Checked, wrong, undecoded, genuine, Oidc,
  unverified_issuer, identity_of, verify_with, verify,
}
use buildkit_operator.Identity.Registry.{IsFrom, IsSound, insert-IsSound, new_verifier-Registers}

-- A verifier that was built from the configuration, and any that verifying tokens makes of it.
pub data Reached (url_host : Bytes → Option Bytes) (c : OidcConfig) : Verifier → Type 0 where
  begun : (v : Verifier) → new_verifier url_host c ≡ built v → Reached url_host c v
  verified :
      {v : Verifier}
      → Reached url_host c v
      → (o : Oidc) (raw : Bytes) → Reached url_host c (verify o raw v).0

-- The identity is that of a token which go-oidc accepts for a provider of the configuration.
pub record IsGenuine (url_host : Bytes → Option Bytes) (c : OidcConfig) (o : Oidc) (raw : Bytes)
    (i : VerifiedIdentity) : Type 0 where
  pub provider : Provider
  pub listed : Has (λ p. provider ≡ p) c.providers
  pub read : unverified_issuer o (trim_space raw) ≡ issuer i.issuer
  pub issued : trim_right_slashes i.issuer ≡ trim_right_slashes provider.issuer
  pub aimed : is_empty provider.audience ≡ false
  pub claims : Dict Claim
  pub accepted : o.check provider.issuer provider.audience (trim_space raw) ≡ genuine claims
  pub mapper : Mapper
  pub mapped : builtin url_host provider ≡ some mapper
  pub named : is_empty (claim_text claims mapper.repo_claim) ≡ false
  pub repo :
      i.repo ≡ normalize_repo (mapper.host ++ (text "/" ++ claim_text claims mapper.repo_claim))
  pub trust : i.untrusted ≡ mapper.untrusted claims

Issuer-cases :
    (x : Issuer) → ((e : VerifyError) × (x ≡ unread e)) ⊎ ((iss : Bytes) × (x ≡ issuer iss))
Issuer-cases (unread e) = inl (e, refl)
Issuer-cases (issuer iss) = inr (iss, refl)

-- What the claims of an accepted token give.
record IsMapped (iss : Bytes) (mapper : Mapper) (r : Checked) (i : VerifiedIdentity) : Type 0 where
  pub claims : Dict Claim
  pub accepted : r ≡ genuine claims
  pub named : is_empty (claim_text claims mapper.repo_claim) ≡ false
  pub same :
      record {
        issuer = iss;
        repo = normalize_repo (mapper.host ++ (text "/" ++ claim_text claims mapper.repo_claim));
        untrusted = mapper.untrusted claims;
      }
      ≡ i

identity_of-IsMapped :
    (o : Oidc) (iss : Bytes) (mapper : Mapper) (r : Checked) (i : VerifiedIdentity)
    → identity_of o iss mapper r ≡ verifies i
    → IsMapped iss mapper r i
unfolding identity_of
identity_of-IsMapped o iss mapper wrong i e = absurd cc
identity_of-IsMapped o iss mapper undecoded i e = absurd cc
identity_of-IsMapped o iss mapper (genuine claims) i e =
    elim (Bool-cases (is_empty (claim_text claims mapper.repo_claim))) [
      | inl blank ↦
          let fails : identity_of o iss mapper (genuine claims) ≡ denies no_repository =
            rw blank refl in
          absurd cc
      | inr named ↦
          let given : identity_of o iss mapper (genuine claims)
              ≡ verifies (record {
                issuer = iss;
                repo =
                    normalize_repo
                      (mapper.host ++ (text "/" ++ claim_text claims mapper.repo_claim));
                untrusted = mapper.untrusted claims;
              }) =
            rw named refl in
          record { claims = claims; accepted = refl; named = named; same = cc }
    ]

module _ (url_host : Bytes → Option Bytes) (c : OidcConfig) where
  -- What a verification leaves of a sound registry, and what its answer means.
  record Verifies (o : Oidc) (raw : Bytes) (r : Verifier × Verdict) : Type 0 where
    pub sound : IsSound url_host c.providers r.0.by_issuer
    pub means : (i : VerifiedIdentity) → r.1 ≡ verifies i → IsGenuine url_host c o raw i

  denies-Verifies :
      (o : Oidc) (raw : Bytes) (v : Verifier) (e : VerifyError)
      → IsSound url_host c.providers v.by_issuer
      → Verifies o raw (v, denies e)
  denies-Verifies o raw v e sound = record { sound = sound; means = λ i h. absurd cc }

  verify_with-Verifies :
      (o : Oidc) (raw iss : Bytes) (ps : ProviderState) (v : Verifier)
      → IsSound url_host c.providers v.by_issuer
      → unverified_issuer o (trim_space raw) ≡ issuer iss
      → lookup (trim_right_slashes iss) v.by_issuer ≡ some ps
      → Verifies o raw (verify_with o (trim_space raw) iss ps v)
  unfolding verify_with
  verify_with-Verifies o raw iss ps v sound read found =
      let from = sound (trim_right_slashes iss) ps found in
      let known : IsFrom url_host c.providers (trim_right_slashes iss)
          (record ps { known = true }) =
        record {
          listed = from.listed;
          keyed = from.keyed;
          mapped = from.mapped;
          issued = from.issued;
          aimed = from.aimed;
        } in
      elim (Bool-cases (not ps.known && not (o.discover ps.cfg.issuer))) [
        | inl unknown ↦ rw unknown (denies-Verifies o raw v no_discovery sound)
        | inr discovered ↦ rw discovered (record {
          sound =
              insert-IsSound url_host c.providers (trim_right_slashes iss)
                (record ps { known = true }) v.by_issuer known sound;
          means = λ i e.
              let is = identity_of-IsMapped o iss ps.mapper _ i e in
              record {
                provider = ps.cfg;
                listed = from.listed;
                read = read ∙ ap (λ (x : VerifiedIdentity). issuer x.issuer) is.same;
                issued =
                    sym (ap (λ (x : VerifiedIdentity). trim_right_slashes x.issuer) is.same)
                    ∙ from.keyed;
                aimed = from.aimed;
                claims = is.claims;
                accepted = is.accepted;
                mapper = ps.mapper;
                mapped = from.mapped;
                named = is.named;
                repo = sym (ap (λ (x : VerifiedIdentity). x.repo) is.same);
                trust = sym (ap (λ (x : VerifiedIdentity). x.untrusted) is.same);
              };
        })
      ]

  verify-Verifies :
      (o : Oidc) (raw : Bytes) (v : Verifier)
      → IsSound url_host c.providers v.by_issuer
      → Verifies o raw (verify o raw v)
  unfolding verify
  verify-Verifies o raw v sound = elim (Bool-cases (is_empty (trim_space raw))) [
    | inl blank ↦ rw blank (denies-Verifies o raw v empty_token sound)
    | inr given ↦ rw given (elim (Issuer-cases (unverified_issuer o (trim_space raw))) [
      | inl (e, unreadable) ↦ rw unreadable (denies-Verifies o raw v e sound)
      | inr (iss, read) ↦
          rw read (elim (Option-cases (lookup (trim_right_slashes iss) v.by_issuer)) [
            | inl unknown ↦ rw unknown (denies-Verifies o raw v untrusted_issuer sound)
            | inr (ps, found) ↦ rw found (verify_with-Verifies o raw iss ps v sound read found)
          ])
    ])
  ]

  Reached-IsSound : (v : Verifier) → Reached url_host c v → IsSound url_host c.providers v.by_issuer
  Reached-IsSound _ (Reached.begun w e) = (new_verifier-Registers url_host c w e).sound
  Reached-IsSound _ (Reached.verified {v = w} r o raw) =
      (verify-Verifies o raw w (Reached-IsSound w r)).sound

-- If a verifier that NewVerifier built, with any verifications behind it, gives an identity for a
-- token, then the token names the issuer of the identity, which up to slashes at the end is that
-- of a provider of the configuration; go-oidc accepted the token for that provider's issuer and
-- its audience, which is not empty; and the repository, from a claim that is not empty, and the
-- trust are what the provider's mapping makes of the accepted claims.
pub verify-IsGenuine :
    (url_host : Bytes → Option Bytes) (c : OidcConfig) (v : Verifier)
    → Reached url_host c v
    → (o : Oidc) (raw : Bytes) (i : VerifiedIdentity) → (verify o raw v).1 ≡ verifies i
    → IsGenuine url_host c o raw i
verify-IsGenuine url_host c v reached o raw i e =
    (verify-Verifies url_host c o raw v (Reached-IsSound url_host c v reached)).means i e
