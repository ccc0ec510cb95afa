-- ===== src/Builder/Settings.antt =====
-- The configuration, the constants, the labels and the choices by trust of
-- internal/builder/statefulset.go.
use buildkit_operator.Base.{
  Bool, true, ◌&&◌, ◌||◌, not, if◌then◌else◌, ℤ, Option, none, some, List, [], ◌∷◌, is_empty,
  insert, Bytes, text, bytes_eq, trim_suffix,
}
use buildkit_operator.Router.{is_fork_key, normalize_arch}
use buildkit_operator.Api.Types.{BuildProjectSpec}
use buildkit_operator.Builder.Objects.{Labels, PodSecurity, ContainerSecurity}

-- `Config`; tolerations and affinity are in serialised form.
pub record Config : Type 0 where
  pub namespace : Bytes
  pub buildkit_image : Bytes
  pub companion_image : Bytes
  pub daemon_certs_secret : Bytes
  pub cert_manager_certs : Bool
  pub buildkitd_config_map : Bytes
  pub port : ℤ
  pub health_port : ℤ
  pub companion : Bool
  pub s3_creds_secret : Bytes
  pub sandbox_runtime_class : Bytes
  pub sandbox_buildkit_image : Bytes
  pub daemon_node_selector : Labels
  pub daemon_tolerations : List Bytes
  pub daemon_affinity : Option Bytes
  pub pin_arch_to_node : Bool

-- What the JSON of `SchedulingFromJSON` holds.
pub record Scheduling : Type 0 where
  pub node_selector : Labels
  pub tolerations : List Bytes
  pub affinity : Option Bytes
  pub pin_arch : Bool

-- `SchedulingFromJSON`, over `json.Unmarshal`; `none` is its error.
unfoldable pub scheduling_from_json : (Bytes → Option Scheduling) → Bytes → Config → Option Config
scheduling_from_json unmarshal s c =
    if is_empty s || bytes_eq s (text "{}") then some c else elim (unmarshal s) [
      | none ↦ none
      | some sched ↦ some (record c {
        daemon_node_selector = sched.node_selector;
        daemon_tolerations = sched.tolerations;
        daemon_affinity = sched.affinity;
        pin_arch_to_node = sched.pin_arch;
      })
    ]

abbrev pub rootless_data_dir : Bytes
rootless_data_dir = text "/home/user/.local/share/buildkit"

abbrev pub rootless_config : Bytes
rootless_config = text "/home/user/.config/buildkit"

abbrev pub rootless_sock : Bytes
rootless_sock = text "unix:///run/user/1000/buildkit/buildkitd.sock"

abbrev pub rootless_run_dir : Bytes
rootless_run_dir = text "/run/user/1000"

abbrev pub privileged_data : Bytes
privileged_data = text "/var/lib/buildkit"

abbrev pub privileged_sock : Bytes
privileged_sock = text "unix:///run/buildkit/buildkitd.sock"

abbrev pub privileged_run : Bytes
privileged_run = text "/run/buildkit"

abbrev pub cache_vol_name : Bytes
cache_vol_name = text "cache"

-- `ProfilePrivileged` of api/v1alpha1/buildproject_types.go.
abbrev pub profile_privileged : Bytes
profile_privileged = text "privileged"

abbrev pub label_untrusted : Bytes
label_untrusted = text "buildkit-operator.socialgouv.github.io/untrusted"

-- `Labels`.
unfoldable pub labels_of : BuildProjectSpec → Labels
labels_of spec =
    (text "app.kubernetes.io/name", text "buildkit-operator")
    ∷ (text "app.kubernetes.io/component", text "buildkitd")
    ∷ (text "buildkit-operator.socialgouv.github.io/project-key", spec.key)
    ∷ (text "buildkit-operator.socialgouv.github.io/arch", normalize_arch spec.arch)
    ∷ []

-- `podLabels`.
unfoldable pub pod_labels_of : BuildProjectSpec → Labels
pod_labels_of spec =
    if is_fork_key spec.key
    then insert label_untrusted (text "true") (labels_of spec)
    else labels_of spec

-- `sandboxedFork`.
unfoldable pub sandboxed_fork : BuildProjectSpec → Config → Bool
sandboxed_fork spec cfg = not (is_empty cfg.sandbox_runtime_class) && is_fork_key spec.key

-- `runtimeClassFor`.
unfoldable pub runtime_class_for : BuildProjectSpec → Config → Option Bytes
runtime_class_for spec cfg =
    if sandboxed_fork spec cfg then some cfg.sandbox_runtime_class else none

-- `sandboxImage`.
unfoldable pub sandbox_image : Config → Bytes
sandbox_image cfg =
    if not (is_empty cfg.sandbox_buildkit_image)
    then cfg.sandbox_buildkit_image
    else trim_suffix cfg.buildkit_image (text "-rootless")

-- `archNodeSelector`.
unfoldable pub arch_node_selector : BuildProjectSpec → Config → Labels
arch_node_selector spec cfg =
    if not cfg.pin_arch_to_node
    then cfg.daemon_node_selector
    else insert (text "kubernetes.io/arch") (normalize_arch spec.arch) cfg.daemon_node_selector

-- The profile and the image that a daemon runs with.
unfoldable pub profile_for : BuildProjectSpec → Config → Bytes
profile_for spec cfg = if sandboxed_fork spec cfg then profile_privileged else spec.security_profile

unfoldable pub image_for : BuildProjectSpec → Config → Bytes
image_for spec cfg = if sandboxed_fork spec cfg then sandbox_image cfg else cfg.buildkit_image

abbrev pub is_privileged : Bytes → Bool
is_privileged profile = bytes_eq profile profile_privileged

-- Where a daemon of the profile keeps its data, listens, and has its socket's directory.
unfoldable pub data_dir : Bytes → Bytes
data_dir profile = if is_privileged profile then privileged_data else rootless_data_dir

unfoldable pub sock_addr : Bytes → Bytes
sock_addr profile = if is_privileged profile then privileged_sock else rootless_sock

unfoldable pub run_dir : Bytes → Bytes
run_dir profile = if is_privileged profile then privileged_run else rootless_run_dir

-- `securityContexts`.
unfoldable pub pod_security : Bytes → PodSecurity
pod_security profile =
    if is_privileged profile
    then record {
      run_as_non_root = none;
      run_as_user = none;
      run_as_group = none;
      fs_group = none;
      fs_group_change_policy = none;
      seccomp_profile = none;
      app_armor_profile = none;
    }
    else record {
      run_as_non_root = some true;
      run_as_user = some 1000;
      run_as_group = some 1000;
      fs_group = some 1000;
      fs_group_change_policy = some (text "OnRootMismatch");
      seccomp_profile = some (text "Unconfined");
      app_armor_profile = some (text "Unconfined");
    }

unfoldable pub daemon_security : Bytes → ContainerSecurity
daemon_security profile =
    if is_privileged profile
    then record { privileged = some true; run_as_non_root = none; run_as_user = none }
    else record { privileged = none; run_as_non_root = some true; run_as_user = some 1000 }
