-- ===== src/Buildd/Route.antt =====
-- `canonicalSpec` of cmd/buildd/server.go, `handleRoute` and `handlePrewarm` of route.go, with the calls of the
-- provisioner as a log.
use buildkit_operator.Base.{
  ℕ, Bool, true, false, not, if◌then◌else◌, pos, Option, none, some, List, [], ◌∷◌, Bytes,
}
use buildkit_operator.Api.Types.{BuildProjectSpec}
use buildkit_operator.Router.{
  normalize_repo, normalize_arch, normalize_name, normalize_target, project_key, fork_key,
}
use buildkit_operator.Policy.{Rule, apply_config}
use buildkit_operator.Controller.Effects.{Error}
use buildkit_operator.Buildd.{RouteRequest, Decoded, accepted, answered}

-- The spec of which no field is set.
abbrev pub zero_spec : BuildProjectSpec
zero_spec = record {
  key = [];
  repo = [];
  name = [];
  target = [];
  arch = [];
  storage_class = [];
  cache_volume_gi = pos 0;
  tier = [];
  idle_timeout_sec = pos 0;
  snapshot_every_sec = pos 0;
  restore_from_snapshot = [];
  fanout = pos 0;
  s3_cache_policy = [];
  security_profile = [];
  resources = [];
}

-- What a handler asks of the provisioner.
pub data Call : Type 0 where
  ensure : BuildProjectSpec → Bool → Call
  start : Bytes → Bytes → Call
  release : Bytes → Bytes → Call
  touch : Bytes → Call

-- The response: the key with the token of the build and whether the daemon is ready, or a status.
pub data Response : Type 0 where
  routed : Bytes → Bytes → Bool → Response
  error_status : ℕ → Response

pub record Handled : Type 0 where
  pub log : List Call
  pub response : Response

-- What the provisioner answers, and whether a slot for a cold start is free before the client is gone.
pub record RouteAnswers : Type 0 where
  pub ensured : Option Error
  pub ready : Bool
  pub has_slot : Bool
  pub waited : Option Error

-- The deferred release, with the status of the path that ends in it.
abbrev pub given_up : Bytes → Bytes → ℕ → Handled
given_up key id status = record { log = release key id ∷ []; response = error_status status }

-- Behind `StartInflight`: the deferred release runs on every path that does not respond.
unfoldable pub wait_for : Bytes → Bytes → RouteAnswers → Handled
wait_for key id a =
    if a.ready
    then record { log = []; response = routed key id true }
    else if not a.has_slot
    then given_up key id 499
    else elim a.waited [
      | none ↦ record { log = []; response = routed key id true }
      | some e ↦ given_up key id 504
    ]

module _ (sha256 : Bytes → Bytes) (path_match : Bytes → Bytes → Option Bool)
    (rules : Option (List Rule)) where
  -- `canonicalSpec`: the spec of the project that a request names.
  unfoldable pub canonical_spec : RouteRequest → BuildProjectSpec
  canonical_spec req = record zero_spec {
    key = project_key sha256 req.repo req.name req.target req.arch;
    repo = normalize_repo req.repo;
    name = normalize_name req.name;
    target = normalize_target req.target;
    arch = normalize_arch req.arch;
  }

  -- The canonical spec with the defaults of the operator.
  unfoldable pub routed_spec : RouteRequest → BuildProjectSpec
  routed_spec req = apply_config path_match rules (canonical_spec req)

  -- The key that is built on: a fork's own for a request that is not trusted.
  unfoldable pub routed_key : RouteRequest → Bytes
  routed_key req =
      let canonical = (routed_spec req).key in
      if req.untrusted then fork_key canonical else canonical

  -- `handleRoute` of an accepted request.
  unfoldable pub route_request : RouteRequest → Bytes → RouteAnswers → Handled
  route_request req id a =
      let asked = ensure (routed_spec req) req.untrusted in
      let key = routed_key req in
      let waiting = wait_for key id a in
      elim a.ensured [
        | some e ↦ record { log = asked ∷ []; response = error_status 500 }
        | none ↦ record { log = asked ∷ (start key id ∷ waiting.log); response = waiting.response }
      ]

  -- `handleRoute`, with the token that it mints.
  unfoldable pub handle_route : Decoded → Bytes → RouteAnswers → Handled
  handle_route (answered status) id a = record { log = []; response = error_status status }
  handle_route (accepted req) id a = route_request req id a

  -- `handlePrewarm`: no build is counted.
  unfoldable pub handle_prewarm : Decoded → RouteAnswers → Handled
  handle_prewarm (answered status) a = record { log = []; response = error_status status }
  handle_prewarm (accepted req) a =
      let spec = routed_spec req in
      elim a.ensured [
        | some e ↦ record { log = ensure spec false ∷ []; response = error_status 500 }
        | none ↦ record {
          log = ensure spec false ∷ (touch spec.key ∷ []);
          response = routed spec.key [] a.ready;
        }
      ]
