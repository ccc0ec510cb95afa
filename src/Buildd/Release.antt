-- ===== src/Buildd/Release.antt =====
-- `handleComplete` of cmd/buildd/route.go: who may ask for a release.
use buildkit_operator.Base.{
  ◌≡◌, ◌⊎◌, Bool, true, false, Option, none, some, is_empty, Bytes, bytes_eq, arith,
}
use buildkit_operator.Router.{normalize_repo}
use buildkit_operator.Controller.Effects.{Read, found, missing, unreadable}
use buildkit_operator.Buildd.{
  Server, Headers, Caller, known, denied, CompleteRequest, release_build, owns, ownership,
  speechless, lacks_credentials, complete_request, handle_complete, is_valid_complete,
  valid_build_id,
}

-- A verified caller asks for its own project, or for one that is not there; a caller with no identity
-- names a build.
abbrev pub MayRelease : Caller → Read Bytes → CompleteRequest → Type 0
MayRelease (denied status) repo req = is_empty req.build_id ≡ false
MayRelease (known id) (found repo) req =
    (id.override ≡ false)
    ⊎ (is_empty id.repo ≡ true)
    ⊎ (bytes_eq (normalize_repo repo) (normalize_repo id.repo) ≡ true)
MayRelease (known id) missing req = Unit {0}
MayRelease (known id) (unreadable e) req = (id.override ≡ false) ⊎ (is_empty id.repo ≡ true)

pub record IsAuthorized (s : Server) (caller : Caller) (repo : Read Bytes) (req : CompleteRequest)
    : Type 0 where
  pub key : is_valid_complete req.key ≡ true
  pub token : valid_build_id req.build_id ≡ true
  pub named : (s.require_build_id ≡ false) ⊎ (is_empty req.build_id ≡ false)
  pub may : MayRelease caller repo req

released_by :
    (s : Server) (caller : Caller) (repo : Read Bytes) (released : Bool) (req out : CompleteRequest)
    → (complete_request s caller repo released req).release ≡ some out
    → IsAuthorized s caller repo out
unfolding complete_request speechless ownership owns release_build
released_by s (denied status) repo released req out e = ground arith
released_by s (known id) (found r) released req out e = ground arith
released_by s (known id) missing released req out e = ground arith
released_by s (known id) (unreadable x) released req out e = ground arith

-- If handleComplete asks for a release, the key is not blank and at most 64 bytes, the token is
-- empty or sixteen hexadecimal digits, and not empty if the server requires one; and the caller
-- has no identity and names a token, or has one that binds no repository, or is bound to a
-- repository that is the project's, or asks for a project that is not there.
pub handle_complete-IsAuthorized :
    (s : Server) (h : Headers) (caller : Caller) (in_budget : Bool) (body : Option CompleteRequest)
    (repo : Read Bytes) (released : Bool) (out : CompleteRequest)
    → (handle_complete s h caller in_budget body repo released).release ≡ some out
    → IsAuthorized s caller repo out
unfolding handle_complete lacks_credentials
handle_complete-IsAuthorized s h caller in_budget none repo released out e = ground arith
handle_complete-IsAuthorized s h caller in_budget (some req) repo released out e =
    let inner : (complete_request s caller repo released req).release ≡ some out = ground arith in
    released_by s caller repo released req out inner
