-- ===== src/Tests/Builder.antt =====
-- Inputs for the theorems on the rendered objects.
use buildkit_operator.Base.{◌≡◌, ◌⊎◌, true, false, pos, none, [], ◌∷◌, text}
use buildkit_operator.Router.{is_fork_key}
use buildkit_operator.Api.Types.{BuildProjectSpec}
use buildkit_operator.Builder.Settings.{Config}
use buildkit_operator.Builder.Render.{stateful_set}
use buildkit_operator.Builder.Wiring.{IsWired, stateful_set-IsWired}
use buildkit_operator.Builder.Trust.{IsConfined, IsTrusted, stateful_set-ByTrust}

abbrev fork : BuildProjectSpec
fork = record {
  key = text "forkp01";
  repo = text "github.com/org/x";
  name = [];
  target = text "default";
  arch = text "x86_64";
  storage_class = [];
  cache_volume_gi = pos 60;
  tier = text "warm";
  idle_timeout_sec = pos 300;
  snapshot_every_sec = pos 0;
  restore_from_snapshot = text "snap-1";
  fanout = pos 0;
  s3_cache_policy = [];
  security_profile = text "rootless";
  resources = [];
}

abbrev config : Config
config = record {
  namespace = text "builds";
  buildkit_image = text "moby/buildkit:v1-rootless";
  companion_image = text "companion";
  daemon_certs_secret = text "certs";
  cert_manager_certs = true;
  buildkitd_config_map = text "toml";
  port = pos 1234;
  health_port = pos 8080;
  companion = true;
  s3_creds_secret = text "s3";
  sandbox_runtime_class = text "kata";
  sandbox_buildkit_image = [];
  daemon_node_selector = (text "pool", text "build") ∷ [];
  daemon_tolerations = [];
  daemon_affinity = none;
  pin_arch_to_node = true;
}

stateful_set-IsWired_example : IsWired (stateful_set fork config)
stateful_set-IsWired_example = stateful_set-IsWired fork config

stateful_set-ByTrust_example :
    ((is_fork_key fork.key ≡ true) × IsConfined fork config (stateful_set fork config))
    ⊎ ((is_fork_key fork.key ≡ false) × IsTrusted fork config (stateful_set fork config))
stateful_set-ByTrust_example = stateful_set-ByTrust fork config
