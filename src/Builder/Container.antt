-- ===== src/Builder/Container.antt =====
-- The containers of `StatefulSet` in internal/builder/statefulset.go, with `buildkitdArgs` and
-- `buildctlProbe`.
use buildkit_operator.Base.{
  ℕ, Bool, true, false, ◌&&◌, not, if◌then◌else◌, ℤ, none, some, List, [], ◌∷◌, ◌++◌, is_empty,
  Bytes, text, itoa,
}
use buildkit_operator.Router.{is_fork_key}
use buildkit_operator.Api.Types.{BuildProjectSpec}
use buildkit_operator.Builder.Objects.{Mount, exec, http_get, Probe, Container}
use buildkit_operator.Builder.Settings.{
  Config, rootless_config, cache_vol_name, is_privileged, rootless_sock, privileged_sock,
  sandboxed_fork, image_for, data_dir, sock_addr, run_dir, daemon_security,
}

-- `buildkitdArgs`: the second entry of the list is the socket of the profile.
unfoldable pub buildkitd_args : Bytes → ℤ → List Bytes
buildkitd_args profile port =
    let args = λ (sock : Bytes).
      text "--addr"
      ∷ sock
      ∷ text "--addr"
      ∷ (text "tcp://0.0.0.0:" ++ itoa port)
      ∷ text "--tlscacert"
      ∷ text "/certs/ca.pem"
      ∷ text "--tlscert"
      ∷ text "/certs/cert.pem"
      ∷ text "--tlskey"
      ∷ text "/certs/key.pem"
      ∷ [] in
    if is_privileged profile
    then args privileged_sock
    else args rootless_sock
      ++ (text "--oci-worker-no-process-sandbox"
          ∷ text "--config"
          ∷ (rootless_config ++ text "/buildkitd.toml")
          ∷ [])

-- `buildctlProbe`.
unfoldable pub buildctl_probe : Bytes → ℕ → ℕ → Probe
buildctl_probe addr initial_delay period = record {
  handler = exec (text "buildctl" ∷ text "--addr" ∷ addr ∷ text "debug" ∷ text "workers" ∷ []);
  initial_delay_seconds = initial_delay;
  period_seconds = period;
  failure_threshold = 3;
}

abbrev mount : Bytes → Bytes → Mount
mount name path = record { name = name; mount_path = path; read_only = false }

abbrev mount_read_only : Bytes → Bytes → Mount
mount_read_only name path = record { name = name; mount_path = path; read_only = true }

module _ (spec : BuildProjectSpec) (cfg : Config) (profile : Bytes) where
  unfoldable pub daemon_mounts : List Mount
  daemon_mounts =
      let common =
        mount cache_vol_name (data_dir profile)
        ∷ mount_read_only (text "certs") (text "/certs")
        ∷ mount (text "run") (run_dir profile)
        ∷ [] in
      if not (is_privileged profile)
      then common ++ (mount (text "config") rootless_config ∷ [])
      else common

  -- Are the credentials of the cold cache given to the daemon?
  unfoldable pub has_s3_credentials : Bool
  has_s3_credentials = not (is_empty cfg.s3_creds_secret) && not (is_fork_key spec.key)

  -- The container `buildkitd`.
  unfoldable pub daemon_container : Container
  unfolding buildkitd_args buildctl_probe daemon_mounts has_s3_credentials
  daemon_container = record {
    name = text "buildkitd";
    image = image_for spec cfg;
    args = buildkitd_args profile cfg.port;
    security = daemon_security profile;
    port_name = text "buildkit";
    port = cfg.port;
    readiness = some (buildctl_probe (sock_addr profile) 5 10);
    liveness = some (buildctl_probe (sock_addr profile) 15 30);
    resources = spec.resources;
    mounts = daemon_mounts;
    env_from_secrets = if has_s3_credentials then cfg.s3_creds_secret ∷ [] else [];
    env = if has_s3_credentials then (text "AWS_EC2_METADATA_DISABLED", text "true") ∷ [] else [];
  }

  -- The container `companion`.
  unfoldable pub companion_container : Container
  companion_container = record {
    name = text "companion";
    image = cfg.companion_image;
    args =
        (text "--buildkit-addr=" ++ sock_addr profile)
        ∷ (text "--cache-dir=" ++ data_dir profile)
        ∷ (text "--listen=:" ++ itoa cfg.health_port)
        ∷ [];
    security = daemon_security profile;
    port_name = text "health";
    port = cfg.health_port;
    readiness = some (record {
      handler = http_get (text "/readyz") cfg.health_port;
      initial_delay_seconds = 5;
      period_seconds = 15;
      failure_threshold = 0;
    });
    liveness = none;
    resources = [];
    mounts =
        mount_read_only cache_vol_name (data_dir profile)
        ∷ mount (text "run") (run_dir profile)
        ∷ [];
    env_from_secrets = [];
    env = [];
  }

  -- The containers of the pod: no companion beside a sandboxed fork.
  unfoldable pub containers_of : List Container
  containers_of =
      if cfg.companion && not (sandboxed_fork spec cfg)
      then daemon_container ∷ companion_container ∷ []
      else daemon_container ∷ []
