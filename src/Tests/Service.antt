-- ===== src/Tests/Service.antt =====
-- Inputs for the theorems on the policy and the handlers.
use buildkit_operator.Base.{
  refl, true, false, pos, some, Option, Bool, [], ◌∷◌, Bytes, text, bytes_eq, cut_suffix, to_lower,
  trim_space, trim_prefix, trim_suffix,
}
use buildkit_operator.Api.Types.{BuildProjectSpec}
use buildkit_operator.Router.{
  normalize_repo, normalize_arch, tidy_path, strip_port, strip_user, strip_schemes, index_byte,
  is_all_digits, colons_to_slashes, collapse_slashes, has_double_slash, halve_slashes,
}
use buildkit_operator.Controller.Effects.{found}
use buildkit_operator.Policy.{Rule, check_rule, check_rules, is_one_of, apply_rules, allow_repo}
use buildkit_operator.Policy.Rules.{IsValid, apply_rules-IsValid}
use buildkit_operator.Buildd.{
  Server, Headers, Verified, Identity, denied, RouteRequest, decode_req, bind_identity,
  is_valid_route, identify, identify_bearer, bearer_token, CompleteRequest, handle_complete,
  complete_request, lacks_credentials, speechless, ownership, release_build, is_valid_complete,
  valid_build_id, all_hex, is_hex_byte,
}
use buildkit_operator.Buildd.Bound.{IsGranted, IsBound, identify-IsGranted, decode_req-IsBound}
use buildkit_operator.Buildd.Release.{IsAuthorized, handle_complete-IsAuthorized}

-- A stand-in for `path.Match` that knows no wildcards.
abbrev plain_match : Bytes → Bytes → Option Bool
plain_match p s = some (bytes_eq p s)

abbrev other_rule : Rule
other_rule = record {
  repo = text "github.com/other/*";
  name = [];
  arch = [];
  tier = text "hot";
  idle_timeout_sec = pos 0;
  cache_volume_gi = pos 0;
  s3_cache = [];
}

abbrev org_rule : Rule
org_rule = record {
  repo = text "github.com/org/*";
  name = [];
  arch = text "arm64";
  tier = text "warm";
  idle_timeout_sec = pos 60;
  cache_volume_gi = pos 0;
  s3_cache = text "never";
}

abbrev spec : BuildProjectSpec
spec = record {
  key = text "p1";
  repo = text "github.com/org/x";
  name = [];
  target = text "default";
  arch = text "arm64";
  storage_class = [];
  cache_volume_gi = pos 0;
  tier = [];
  idle_timeout_sec = pos 0;
  snapshot_every_sec = pos 0;
  restore_from_snapshot = [];
  fanout = pos 0;
  s3_cache_policy = [];
  security_profile = [];
  resources = [];
}

apply_rules-IsValid_example :
    IsValid plain_match (apply_rules plain_match (other_rule ∷ org_rule ∷ []) spec)
unfolding check_rule check_rules is_one_of bytes_eq
apply_rules-IsValid_example =
    apply_rules-IsValid plain_match 0 (other_rule ∷ org_rule ∷ []) spec refl
      (record { tier = refl; cache = refl; idle = refl; volume = refl })

abbrev server : Server
server = record { admin_token = []; auth_token = []; allowlist = some []; require_build_id = true }

abbrev headers : Headers
headers = record { admin = []; authorization = text "Bearer t"; is_post = true }

abbrev ci : Identity
ci = record { repo = text "github.com/org/x"; untrusted = true; override = true }

abbrev token : Verified
token = record { repo = text "github.com/org/x"; untrusted = true }

identify-IsGranted_example : IsGranted server headers (some token) ci
unfolding identify identify_bearer allow_repo
identify-IsGranted_example = identify-IsGranted server headers (some token) ci refl

abbrev asked : RouteRequest
asked = record {
  repo = text "github.com/victim/y";
  name = [];
  target = [];
  arch = text "amd64";
  untrusted = false;
}

abbrev bound : RouteRequest
bound = record {
  repo = text "github.com/org/x";
  name = [];
  target = [];
  arch = text "amd64";
  untrusted = true;
}

decode_req-IsBound_example : IsBound ci bound
unfolding decode_req bind_identity is_valid_route normalize_arch normalize_repo tidy_path strip_port
    strip_user strip_schemes trim_space to_lower trim_prefix trim_suffix cut_suffix index_byte
    is_all_digits colons_to_slashes collapse_slashes has_double_slash halve_slashes bytes_eq
decode_req-IsBound_example = decode_req-IsBound ci headers true (some asked) bound refl

abbrev release : CompleteRequest
release = record { key = text "p1"; build_id = text "0123456789abcdef" }

handle_complete-IsAuthorized_example :
    IsAuthorized server (denied 401) (found (text "github.com/org/x")) release
unfolding handle_complete complete_request lacks_credentials bearer_token speechless ownership
    release_build is_valid_complete valid_build_id all_hex is_hex_byte trim_space to_lower bytes_eq
handle_complete-IsAuthorized_example =
    handle_complete-IsAuthorized server headers (denied 401) true (some release)
      (found (text "github.com/org/x")) true release refl
