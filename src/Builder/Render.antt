-- ===== src/Builder/Render.antt =====
-- `StatefulSet`, `Service` and `PodDisruptionBudget` of internal/builder/statefulset.go.
use buildkit_operator.Base.{
  Bool, not, if◌then◌else◌, Option, none, some, List, [], ◌∷◌, ◌++◌, is_empty, Bytes, text, itoa,
}
use buildkit_operator.Router.{daemon_name, is_fork_key}
use buildkit_operator.Api.Types.{BuildProjectSpec}
use buildkit_operator.Builder.Objects.{
  Labels, empty_dir, secret, config_map, Volume, Claim, Retention, StatefulSet, Service, Budget,
}
use buildkit_operator.Builder.Settings.{
  Config, cache_vol_name, is_privileged, labels_of, pod_labels_of, runtime_class_for,
  arch_node_selector, profile_for, pod_security,
}
use buildkit_operator.Builder.Container.{containers_of}

-- The names that buildkitd reads its certificates by, for a Secret of cert-manager.
unfoldable pub cert_items : Config → Labels
cert_items cfg =
    if cfg.cert_manager_certs
    then (text "tls.crt", text "cert.pem")
      ∷ (text "tls.key", text "key.pem")
      ∷ (text "ca.crt", text "ca.pem")
      ∷ []
    else []

unfoldable pub volumes_of : Config → Bytes → List Volume
volumes_of cfg profile =
    let common =
      record { name = text "run"; source = empty_dir }
      ∷ record { name = text "certs"; source = secret cfg.daemon_certs_secret (cert_items cfg) }
      ∷ [] in
    let config : Volume = record {
      name = text "config";
      source =
          config_map cfg.buildkitd_config_map ((text "buildkitd.toml", text "buildkitd.toml") ∷ []);
    } in
    if not (is_privileged profile) then common ++ (config ∷ []) else common

-- The claim template of the cache.
unfoldable pub claim_of : BuildProjectSpec → Claim
claim_of spec = record {
  name = cache_vol_name;
  access_modes = text "ReadWriteOnce" ∷ [];
  storage = itoa spec.cache_volume_gi ++ text "Gi";
  storage_class_name = if is_empty spec.storage_class then none else some spec.storage_class;
  data_source =
      if is_empty spec.restore_from_snapshot then none else some spec.restore_from_snapshot;
}

-- A fork's claim goes with its StatefulSet; the default keeps it.
unfoldable pub retention_of : BuildProjectSpec → Option Retention
retention_of spec =
    if is_fork_key spec.key
    then some (record { when_deleted = text "Delete"; when_scaled = text "Retain" })
    else none

-- `StatefulSet`.
unfoldable pub stateful_set : BuildProjectSpec → Config → StatefulSet
stateful_set spec cfg =
    let profile = profile_for spec cfg in
    record {
      name = daemon_name spec.key;
      namespace = cfg.namespace;
      labels = labels_of spec;
      service_name = daemon_name spec.key;
      replicas = 1;
      pod_management_policy = text "Parallel";
      selector = labels_of spec;
      pod_labels = pod_labels_of spec;
      pod = record {
        security = pod_security profile;
        runtime_class_name = runtime_class_for spec cfg;
        node_selector = arch_node_selector spec cfg;
        tolerations = cfg.daemon_tolerations;
        affinity = cfg.daemon_affinity;
        containers = containers_of spec cfg profile;
        termination_grace_period_seconds = 120;
        volumes = volumes_of cfg profile;
      };
      claims = claim_of spec ∷ [];
      retention = retention_of spec;
    }

-- `Service`.
unfoldable pub service : BuildProjectSpec → Config → Service
service spec cfg = record {
  name = daemon_name spec.key;
  namespace = cfg.namespace;
  labels = labels_of spec;
  kind = text "ClusterIP";
  selector = labels_of spec;
  port_name = text "buildkit";
  port = cfg.port;
  target_port = cfg.port;
}

-- `PodDisruptionBudget`: none while no build is served.
unfoldable pub pod_disruption_budget : BuildProjectSpec → Config → Bool → Option Budget
pod_disruption_budget spec cfg serving =
    if not serving
    then none
    else some (record {
      name = daemon_name spec.key;
      namespace = cfg.namespace;
      labels = labels_of spec;
      min_available = 1;
      selector = labels_of spec;
    })
