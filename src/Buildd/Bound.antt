-- ===== src/Buildd/Bound.antt =====
-- `identify` and `decodeReq` of cmd/buildd: what an accepted request is bound to.
use buildkit_operator.Base.{
  ◌≡◌, ◌⊎◌, Bool, true, false, ◌&&◌, Option, none, some, List, is_empty, Bytes, text, bytes_eq,
  arith,
}
use buildkit_operator.Router.{normalize_repo, normalize_arch}
use buildkit_operator.Policy.{allow_repo}
use buildkit_operator.Buildd.{
  Server, Headers, Verified, Identity, known, bearer_token, identify_bearer, identify, RouteRequest,
  is_valid_route, bind_identity, accepted, decode_req,
}

-- Why a caller is let in.
abbrev pub IsGranted : Server → Headers → Option Verified → Identity → Type 0
IsGranted s h verified id =
    ((id.override ≡ true)
      × (allowlist : List Bytes) × (v : Verified) × (s.allowlist ≡ some allowlist)
      × (verified ≡ some v)
      × (id.repo ≡ v.repo)
      × (id.untrusted ≡ v.untrusted)
      × (allow_repo allowlist v.repo ≡ true))
    ⊎ ((id.override ≡ false)
        × (((is_empty s.admin_token ≡ false) × (bytes_eq h.admin s.admin_token ≡ true))
            ⊎ ((is_empty s.auth_token ≡ false) × (bytes_eq (bearer_token h) s.auth_token ≡ true))
            ⊎ ((s.allowlist ≡ none) × (is_empty s.auth_token ≡ true))))

-- A caller that identify lets in either has a verified token, whose repository and trust it takes
-- over and whose repository the allowlist allows; or overrides nothing and has the admin token or
-- the bearer token, each only if it is configured and not empty, or there is neither a verifier
-- nor a bearer token configured.
pub identify-IsGranted :
    (s : Server) (h : Headers) (verified : Option Verified) (id : Identity)
    → identify s h verified ≡ known id
    → IsGranted s h verified id
unfolding identify identify_bearer
identify-IsGranted s h verified id e = ground arith

-- What an accepted request is bound to.
pub record IsBound (id : Identity) (req : RouteRequest) : Type 0 where
  pub repo : (id.override ≡ false) ⊎ (req.repo ≡ id.repo)
  pub untrusted : (id.override && id.untrusted ≡ false) ⊎ (req.untrusted ≡ true)
  pub known_repo : is_empty (normalize_repo req.repo) ≡ false
  pub arch :
      (bytes_eq (normalize_arch req.arch) (text "amd64") ≡ true)
      ⊎ (bytes_eq (normalize_arch req.arch) (text "arm64") ≡ true)

-- A request that decodeReq accepts from a caller with an identity has the repository of the token
-- if the identity overrides, is untrusted if the token is, has a repository that does not
-- normalise to nothing, and is for amd64 or arm64.
pub decode_req-IsBound :
    (id : Identity) (h : Headers) (in_budget : Bool) (body : Option RouteRequest)
    (req : RouteRequest)
    → decode_req (known id) h in_budget body ≡ accepted req
    → IsBound id req
unfolding decode_req bind_identity is_valid_route
decode_req-IsBound id h in_budget body req e = ground arith
