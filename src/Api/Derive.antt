-- ===== src/Api/Derive.antt =====
-- api/v1alpha1/derive.go: the spec of a fork's or a clone's daemon.
use buildkit_operator.Base.{◌≡◌, pos, [], Bytes, arith}
use buildkit_operator.Api.Types.{BuildProjectSpec, tier_hot, tier_warm}
use buildkit_operator.Base.{ℤ}

abbrev pub fork_idle_timeout_sec : ℤ
fork_idle_timeout_sec = pos 300

pub data ChildRole : Type 0 where
  fork_child clone_child : ChildRole

-- The fields that both roles share; what the literal leaves out is zero.
unfoldable child_base : BuildProjectSpec → Bytes → Bytes → BuildProjectSpec
child_base parent parent_snapshot key = record {
  key = key;
  repo = parent.repo;
  name = parent.name;
  target = parent.target;
  arch = parent.arch;
  storage_class = parent.storage_class;
  cache_volume_gi = parent.cache_volume_gi;
  tier = [];
  idle_timeout_sec = pos 0;
  snapshot_every_sec = pos 0;
  restore_from_snapshot = parent_snapshot;
  fanout = pos 0;
  s3_cache_policy = [];
  security_profile = parent.security_profile;
  resources = [];
}

-- `DeriveChild`.
unfoldable pub derive_child : BuildProjectSpec → Bytes → ChildRole → Bytes → BuildProjectSpec
unfolding child_base
derive_child parent parent_snapshot fork_child key =
    record (child_base parent parent_snapshot key) {
      tier = tier_warm;
      idle_timeout_sec = fork_idle_timeout_sec;
    }
derive_child parent parent_snapshot clone_child key =
    record (child_base parent parent_snapshot key) { tier = tier_hot }

-- How long a child stays up without a build: forks for a short while, clones for good.
abbrev pub Lives : ChildRole → BuildProjectSpec → Type 0
Lives fork_child child = (child.tier ≡ tier_warm) × (child.idle_timeout_sec ≡ fork_idle_timeout_sec)
Lives clone_child child = child.tier ≡ tier_hot

-- A child has the parent's identity and storage, the key and the seed that it is given, and it
-- neither snapshots nor fans out.
pub record IsChild (parent : BuildProjectSpec) (snapshot key : Bytes) (role : ChildRole)
    (child : BuildProjectSpec) : Type 0 where
  pub keyed : child.key ≡ key
  pub same_repo : child.repo ≡ parent.repo
  pub same_name : child.name ≡ parent.name
  pub same_target : child.target ≡ parent.target
  pub same_arch : child.arch ≡ parent.arch
  pub same_class : child.storage_class ≡ parent.storage_class
  pub same_size : child.cache_volume_gi ≡ parent.cache_volume_gi
  pub same_profile : child.security_profile ≡ parent.security_profile
  pub seeded : child.restore_from_snapshot ≡ snapshot
  pub no_snapshots : child.snapshot_every_sec ≡ pos 0
  pub no_fanout : child.fanout ≡ pos 0
  pub lives : Lives role child

-- A child has the key it was given, its parent's repository, name, target, architecture, storage
-- class, volume size and security profile and the parent's snapshot to restore from, takes no
-- snapshots and has no replicas of its own, and a fork is warm with the fork's idle time while a
-- clone is hot.
pub derive_child-IsChild :
    (parent : BuildProjectSpec) (snapshot : Bytes) (role : ChildRole) (key : Bytes)
    → IsChild parent snapshot key role (derive_child parent snapshot role key)
unfolding derive_child
derive_child-IsChild parent snapshot fork_child key = ground arith
derive_child-IsChild parent snapshot clone_child key = ground arith
