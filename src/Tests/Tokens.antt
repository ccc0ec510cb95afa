-- ===== src/Tests/Tokens.antt =====
-- Inputs for the theorems on the verification of tokens.
use buildkit_operator.Base.{
  ◌≡◌, refl, true, false, Option, some, [], ◌∷◌, Bytes, text, bytes_eq, has_prefix, cut_suffix,
  to_lower, trim_space, trim_prefix, trim_suffix, trim_right_slashes, lookup, insert,
}
use buildkit_operator.Router.{
  normalize_repo, tidy_path, strip_port, strip_user, strip_schemes, index_byte, is_all_digits,
  colons_to_slashes, collapse_slashes, has_double_slash, halve_slashes,
}
use buildkit_operator.Policy.{normalize_allowlist}
use buildkit_operator.Identity.{
  Provider, OidcConfig, word, claim_text, on_pull_request, host_from_issuer, builtin, Verifier,
  built, register_all, new_verifier,
}
use buildkit_operator.Identity.Tokens.{
  VerifiedIdentity, genuine, Oidc, payload_issuer, unverified_issuer, identity_of, verify_with,
  verify,
}
use buildkit_operator.Identity.Registry.{Registers, new_verifier-Registers}
use buildkit_operator.Identity.Genuine.{Reached, IsGenuine, verify-IsGenuine}

abbrev no_parser : Bytes → Option Bytes
no_parser s = some (text "forge")

abbrev forge : Provider
forge = record {
  kind = text "Forgejo";
  issuer = text "https://forge/";
  audience = text "bko";
  repo_claim = [];
  host = [];
  strict_unprotected_refs = false;
}

abbrev config : OidcConfig
config = record { providers = forge ∷ []; repo_allowlist = []; disable = false }

abbrev verifier : Verifier
verifier = record {
  by_issuer =
      (
        text "https://forge",
        record {
          cfg = forge;
          mapper = record {
            repo_claim = text "repository";
            host = text "forge";
            untrusted = on_pull_request;
          };
          known = false;
        },
      )
      ∷ [];
  allowlist = [];
}

verifier_built : new_verifier no_parser config ≡ built verifier
unfolding new_verifier register_all builtin host_from_issuer lookup insert bytes_eq to_lower
    trim_right_slashes normalize_allowlist
verifier_built = refl

-- A pull request's token, with the issuer as its payload.
abbrev oidc : Oidc
oidc = record {
  decode = λ s. some s;
  read_iss = λ s. some s;
  discover = λ iss. true;
  check = λ iss audience token. genuine (
      (text "repository", word (text "Org/X"))
      ∷ (text "ref", word (text "refs/pull/7/merge"))
      ∷ []);
}

abbrev fork_pr : VerifiedIdentity
fork_pr = record { issuer = text "https://forge"; repo = text "forge/org/x"; untrusted = true }

new_verifier-Registers_example :
    Registers no_parser config.providers [] config.providers verifier.by_issuer
new_verifier-Registers_example = new_verifier-Registers no_parser config verifier verifier_built

verify-IsGenuine_example : IsGenuine no_parser config oidc (text "h.https://forge.s") fork_pr
unfolding verify verify_with identity_of unverified_issuer payload_issuer claim_text lookup insert
    bytes_eq has_prefix trim_right_slashes trim_space normalize_repo tidy_path strip_port strip_user
    strip_schemes to_lower trim_prefix trim_suffix cut_suffix index_byte is_all_digits
    colons_to_slashes collapse_slashes has_double_slash halve_slashes
verify-IsGenuine_example =
    verify-IsGenuine no_parser config verifier (Reached.begun verifier verifier_built) oidc
      (text "h.https://forge.s") fork_pr refl
