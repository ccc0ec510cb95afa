-- ===== src/Buildd.antt =====
-- cmd/buildd: who is asking (`identify` of server.go), and the checks of the handlers of route.go before
-- they reach the provisioner. A token's verification and the provisioner's answers are arguments.
pub mod Bound
pub mod Release
pub mod Route
use buildkit_operator.Base.{
  ℕ, ◌*◌, ◌≡◌, Bool, true, false, ◌||◌, ◌&&◌, not, ltb, ◌==◌, if◌then◌else◌, Option, none, some,
  List, [], ◌∷◌, ◌++◌, length, take, drop, is_empty, Bytes, text, bytes_eq, leb, to_lower,
  trim_space,
}
use buildkit_operator.Api.Types.{BuildProjectSpec}
use buildkit_operator.Router.{
  normalize_repo, normalize_arch, normalize_name, normalize_target, project_key,
}
use buildkit_operator.Policy.{allow_repo}
use buildkit_operator.Controller.Effects.{Read, found, missing, unreadable}

-- What the server is configured with; no allowlist stands for a verifier that is off.
pub record Server : Type 0 where
  pub admin_token : Bytes
  pub auth_token : Bytes
  pub allowlist : Option (List Bytes)
  pub require_build_id : Bool

-- The parts of an HTTP request that are read; a header that is not sent is the empty text.
pub record Headers : Type 0 where
  pub admin : Bytes
  pub authorization : Bytes
  pub is_post : Bool

-- A verified token: its repository, and whether it builds code of a pull request.
pub record Verified : Type 0 where
  pub repo : Bytes
  pub untrusted : Bool

-- `reqIdentity`, or the status of the denial.
pub record Identity : Type 0 where
  pub repo : Bytes
  pub untrusted : Bool
  pub override : Bool

pub data Caller : Type 0 where
  known : Identity → Caller
  denied : ℕ → Caller

abbrev pub operator : Caller
operator = known (record { repo = []; untrusted = false; override = false })

-- `bearerToken`.
unfoldable pub bearer_token : Headers → Bytes
bearer_token h =
    let prefix = text "Bearer " in
    if leb (length h.authorization) (length prefix)
      || not (bytes_eq (to_lower (take (length prefix) h.authorization)) (to_lower prefix))
    then []
    else drop (length prefix) h.authorization

-- `identify`; the last argument is what the verifier says of the token.
unfoldable pub identify_bearer : Server → Headers → Option Verified → Caller
identify_bearer s h verified = elim s.allowlist [
  | some allowlist ↦ elim verified [
    | some v ↦
        if allow_repo allowlist v.repo
        then known (record { repo = v.repo; untrusted = v.untrusted; override = true })
        else denied 403
    | none ↦
        if not (is_empty s.auth_token) && bytes_eq (bearer_token h) s.auth_token
        then operator
        else denied 401
  ]
  | none ↦
      if not (is_empty s.auth_token) && not (bytes_eq (bearer_token h) s.auth_token)
      then denied 401
      else operator
]

unfoldable pub identify : Server → Headers → Option Verified → Caller
identify s h verified =
    if not (is_empty s.admin_token) && not (is_empty h.admin)
    then (if bytes_eq h.admin s.admin_token then operator else denied 401)
    else identify_bearer s h verified

-- `router.RouteRequest`, as far as the server reads it.
pub record RouteRequest : Type 0 where
  pub repo : Bytes
  pub name : Bytes
  pub target : Bytes
  pub arch : Bytes
  pub untrusted : Bool

-- `validateRouteRequest`: is the request accepted?
unfoldable pub is_valid_route : RouteRequest → Bool
unfolding bytes_eq
is_valid_route req =
    not (is_empty (normalize_repo req.repo))
    && not (ltb 512 (length req.repo))
    && not (ltb 128 (length req.name))
    && not (ltb 128 (length req.target))
    && (bytes_eq (normalize_arch req.arch) (text "amd64")
        || bytes_eq (normalize_arch req.arch) (text "arm64"))

-- The verified repository replaces what the client says of itself.
unfoldable pub bind_identity : Identity → RouteRequest → RouteRequest
bind_identity id req =
    if id.override
    then record req { repo = id.repo; untrusted = req.untrusted || id.untrusted }
    else req

-- A handler's preamble: the request, or a status.
pub data Decoded : Type 0 where
  accepted : RouteRequest → Decoded
  answered : ℕ → Decoded

-- `decodeReq`, for a body that `decodeJSON` gives or refuses.
unfoldable pub decode_req : Caller → Headers → Bool → Option RouteRequest → Decoded
decode_req (denied status) h in_budget body = answered status
decode_req (known id) h in_budget body =
    if not in_budget then answered 429 else if not h.is_post then answered 405 else elim body [
      | none ↦ answered 400
      | some req ↦
          let bound = bind_identity id req in
          if is_valid_route bound then accepted bound else answered 400
    ]

-- `validateCompleteRequest`.
unfoldable pub is_valid_complete : Bytes → Bool
is_valid_complete key = not (is_empty (trim_space key)) && not (ltb 64 (length key))

-- `validBuildID`, over `hex.DecodeString`: the empty text, or sixteen hexadecimal digits.
unfoldable pub is_hex_byte : ℕ → Bool
is_hex_byte c = (leb 48 c && leb c 57) || (leb 97 c && leb c 102) || (leb 65 c && leb c 70)

unfoldable pub all_hex : Bytes → Bool
all_hex [] = true
all_hex (c ∷ cs) = is_hex_byte c && all_hex cs

unfoldable pub valid_build_id : Bytes → Bool
valid_build_id id = if is_empty id then true else (length id == 16) && all_hex id

-- The body of `/complete`.
pub record CompleteRequest : Type 0 where
  pub key : Bytes
  pub build_id : Bytes

-- A release that was asked of the provisioner, and the status of the response.
pub record Completed : Type 0 where
  pub release : Option CompleteRequest
  pub status : ℕ

abbrev pub refuse : ℕ → Completed
refuse status = record { release = none; status = status }

-- The release itself; without an identity the token must have named a live build.
unfoldable pub release_build : Caller → CompleteRequest → Bool → Completed
release_build (known id) req released = record { release = some req; status = 204 }
release_build (denied status) req released = record {
  release = some req;
  status = if released then 204 else status;
}

-- Does the caller own the project? `repo` is the answer of `ProjectRepo`.
unfoldable pub owns : Identity → Read Bytes → Option ℕ
owns id (unreadable e) = if id.override && not (is_empty id.repo) then some 503 else none
owns id missing = none
owns id (found repo) =
    if id.override
      && not (is_empty id.repo)
      && not (bytes_eq (normalize_repo repo) (normalize_repo id.repo))
    then some 403
    else none

unfoldable pub ownership : Caller → Read Bytes → Option ℕ
ownership (denied status) repo = none
ownership (known id) repo = owns id repo

-- Does a caller with no identity and no token have nothing to argue with?
unfoldable pub speechless : Caller → Bytes → Option ℕ
speechless (known id) build_id = none
speechless (denied status) build_id = if is_empty build_id then some status else none

-- Refused before the rate limiter: no credential at all.
unfoldable pub lacks_credentials : Caller → Headers → Option ℕ
lacks_credentials (known id) h = none
lacks_credentials (denied status) h =
    if is_empty (bearer_token h) && is_empty h.admin then some status else none

-- A check that answers, or what follows it.
abbrev pub or_else : Option ℕ → Completed → Completed
or_else (some status) rest = refuse status
or_else none rest = rest

-- `handleComplete` from the decoded body on.
unfoldable pub complete_request : Server → Caller → Read Bytes → Bool → CompleteRequest → Completed
complete_request s caller repo released req =
    if not (is_valid_complete req.key)
    then refuse 400
    else if not (valid_build_id req.build_id)
    then refuse 400
    else or_else (speechless caller req.build_id) (
        or_else (ownership caller repo) (
          if s.require_build_id && is_empty req.build_id
          then refuse 400
          else release_build caller req released))

-- `handleComplete`.
unfoldable pub handle_complete :
    Server → Headers → Caller → Bool → Option CompleteRequest → Read Bytes → Bool → Completed
handle_complete s h caller in_budget body repo released = or_else (lacks_credentials caller h) (
    if not in_budget
    then refuse 429
    else if not h.is_post
    then refuse 405
    else elim body [ none ↦ refuse 400 | some req ↦ complete_request s caller repo released req ])
