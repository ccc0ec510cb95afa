-- ===== src/Builder/Objects.antt =====
-- The Kubernetes objects of internal/builder/statefulset.go, with the fields that the code sets.
use buildkit_operator.Base.{ℕ, ℤ, Bool, Option, List, Bytes, Dict}

-- A `map[string]string`, in the order of insertion.
abbrev pub Labels : Type 0
Labels = Dict Bytes

pub record Mount : Type 0 where
  pub name : Bytes
  pub mount_path : Bytes
  pub read_only : Bool

-- A command that is run in the container, or a path that is asked for at a port.
pub data Handler : Type 0 where
  exec : List Bytes → Handler
  http_get : Bytes → ℤ → Handler

-- An unset threshold is 0.
pub record Probe : Type 0 where
  pub handler : Handler
  pub initial_delay_seconds : ℕ
  pub period_seconds : ℕ
  pub failure_threshold : ℕ

-- The security context of a container: an unset field is `none`, and `allowPrivilegeEscalation` is
-- not set at all.
pub record ContainerSecurity : Type 0 where
  pub privileged : Option Bool
  pub run_as_non_root : Option Bool
  pub run_as_user : Option ℕ

-- The security context of a pod.
pub record PodSecurity : Type 0 where
  pub run_as_non_root : Option Bool
  pub run_as_user : Option ℕ
  pub run_as_group : Option ℕ
  pub fs_group : Option ℕ
  pub fs_group_change_policy : Option Bytes
  pub seccomp_profile : Option Bytes
  pub app_armor_profile : Option Bytes

pub record Container : Type 0 where
  pub name : Bytes
  pub image : Bytes
  pub args : List Bytes
  pub security : ContainerSecurity
  pub port_name : Bytes
  pub port : ℤ
  pub readiness : Option Probe
  pub liveness : Option Probe
  pub resources : Bytes
  pub mounts : List Mount
  pub env_from_secrets : List Bytes
  pub env : Labels

-- Where a volume's content comes from; the items map a key to a path.
pub data Source : Type 0 where
  empty_dir : Source
  secret : Bytes → Labels → Source
  config_map : Bytes → Labels → Source

pub record Volume : Type 0 where
  pub name : Bytes
  pub source : Source

pub record PodSpec : Type 0 where
  pub security : PodSecurity
  pub runtime_class_name : Option Bytes
  pub node_selector : Labels
  pub tolerations : List Bytes
  pub affinity : Option Bytes
  pub containers : List Container
  pub termination_grace_period_seconds : ℕ
  pub volumes : List Volume

-- The claim for the cache: its size, its class, and the snapshot that it is made from.
pub record Claim : Type 0 where
  pub name : Bytes
  pub access_modes : List Bytes
  pub storage : Bytes
  pub storage_class_name : Option Bytes
  pub data_source : Option Bytes

-- What becomes of the claims when the StatefulSet is deleted, and when it is scaled.
pub record Retention : Type 0 where
  pub when_deleted : Bytes
  pub when_scaled : Bytes

pub record StatefulSet : Type 0 where
  pub name : Bytes
  pub namespace : Bytes
  pub labels : Labels
  pub service_name : Bytes
  pub replicas : ℕ
  pub pod_management_policy : Bytes
  pub selector : Labels
  pub pod_labels : Labels
  pub pod : PodSpec
  pub claims : List Claim
  pub retention : Option Retention

pub record Service : Type 0 where
  pub name : Bytes
  pub namespace : Bytes
  pub labels : Labels
  pub kind : Bytes
  pub selector : Labels
  pub port_name : Bytes
  pub port : ℤ
  pub target_port : ℤ

pub record Budget : Type 0 where
  pub name : Bytes
  pub namespace : Bytes
  pub labels : Labels
  pub min_available : ℕ
  pub selector : Labels
