-- ===== src/Api/Types.antt =====
-- api/v1alpha1/buildproject_types.go and the entry type of inflight.go: the spec and the status of a
-- BuildProject, its constants.
use buildkit_operator.Base.{ℤ, Bytes, text, Time, Option, List}

-- `corev1.ResourceRequirements` in serialised form; the empty text is its zero value.
abbrev pub Resources : Type 0
Resources = Bytes

abbrev pub tier_hot : Bytes
tier_hot = text "hot"

abbrev pub tier_warm : Bytes
tier_warm = text "warm"

abbrev pub s3_cache_cadence : Bytes
s3_cache_cadence = text "cadence"

abbrev pub s3_cache_always : Bytes
s3_cache_always = text "always"

abbrev pub s3_cache_never : Bytes
s3_cache_never = text "never"

abbrev pub profile_rootless : Bytes
profile_rootless = text "rootless"

pub record BuildProjectSpec : Type 0 where
  pub key : Bytes
  pub repo : Bytes
  pub name : Bytes
  pub target : Bytes
  pub arch : Bytes
  pub storage_class : Bytes
  pub cache_volume_gi : ℤ
  pub tier : Bytes
  pub idle_timeout_sec : ℤ
  pub snapshot_every_sec : ℤ
  pub restore_from_snapshot : Bytes
  pub fanout : ℤ
  pub s3_cache_policy : Bytes
  pub security_profile : Bytes
  pub resources : Resources

pub record InflightBuild : Type 0 where
  pub id : Bytes
  pub since : Time

-- The conditions of the status are kept by the API machinery's helpers and stand with the cluster.
pub record BuildProjectStatus : Type 0 where
  pub phase : Bytes
  pub replicas : ℤ
  pub endpoint : Bytes
  pub last_build_time : Option Time
  pub recent_build_times : List Time
  pub last_snapshot : Bytes
  pub inflight : List InflightBuild
  pub inflight_builds : ℤ
  pub last_cache_export_grant : Option Time

-- The object: its name and creation time from the metadata, the spec and the status.
pub record BuildProject : Type 0 where
  pub name : Bytes
  pub creation_timestamp : Time
  pub spec : BuildProjectSpec
  pub status : BuildProjectStatus
