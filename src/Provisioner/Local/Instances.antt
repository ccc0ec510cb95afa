-- ===== src/Provisioner/Local/Instances.antt =====
-- internal/provisioner/local/local.go: an instance is started or launched for a project, from a seed or
-- afresh; what is asked of the host is a log of calls.
pub mod Isolated
use buildkit_operator.Base.{
  ℕ, zero, suc, ◌+◌, Bool, true, false, ◌&&◌, ◌==◌, not, if◌then◌else◌, ℤ, pos, Option, none, some,
  List, [], ◌∷◌, ◌++◌, is_empty, Bytes, trim_right_slashes, text, Dict, lookup,
}
use buildkit_operator.Router.{daemon_name, fork_key, clone_key}
use buildkit_operator.Api.Types.{BuildProjectSpec}
use buildkit_operator.Api.Derive.{fork_child, clone_child, derive_child}
use buildkit_operator.Provisioner.Local.{Projects, bare_spec, register}

-- The configuration that the instances of the host share.
pub record HostConfig : Type 0 where
  pub pool : Bytes
  pub image : Bytes
  pub vm_image : Bytes
  pub mount_path : Bytes
  pub certs_host_path : Bytes
  pub fork_egress_strict : Bool

-- `InstanceSpec`.
pub record InstanceSpec : Type 0 where
  pub name : Bytes
  pub image : Bytes
  pub vm : Bool
  pub dataset : Bytes
  pub mount_path : Bytes
  pub certs_host_path : Bytes
  pub config : Dict Bytes

-- The methods of `HostOps` that change the host.
pub data HostCall : Type 0 where
  ensure_dataset : Bytes → HostCall
  clone : Bytes → Bytes → HostCall
  launch : InstanceSpec → HostCall
  start : Bytes → HostCall
  stop : Bytes → HostCall
  apply_egress : Bytes → Bool → HostCall
  snapshot : Bytes → Bytes → HostCall
  destroy_snapshot : Bytes → HostCall

-- How `Ensure` fails: without a VM image for a fork, or at a step.
pub data EnsureError : Type 0 where
  no_vm_image exists_failed running_failed start_failed clone_failed dataset_failed : EnsureError
  launch_failed : EnsureError
  fanout_failed : ℕ → EnsureError

-- What the host answers; `none` and `false` are errors, and of the egress only the call matters.
pub record HostAnswers : Type 0 where
  pub exists : Option Bool
  pub running : Option Bool
  pub started : Bool
  pub snapshots : Option (List Bytes)
  pub cloned : Bool
  pub dataset_made : Bool
  pub launched : Bool

-- The calls so far, the projects, and the error.
pub record Ensuring : Type 0 where
  pub log : List HostCall
  pub projects : Projects
  pub error : Option EnsureError

-- `dataset`.
unfoldable pub dataset : HostConfig → Bytes → Bytes
dataset c key = trim_right_slashes c.pool ++ (text "/" ++ key)

-- `imageFor`.
unfoldable pub image_of : HostConfig → Bool → Bytes
image_of c vm = if vm && not (is_empty c.vm_image) then c.vm_image else c.image

abbrev pub label_key : Bytes
label_key = text "user.buildkit-operator.key"

-- The configuration of an instance: a container is privileged, a VM is not.
unfoldable pub instance_config : Bytes → Bool → Dict Bytes
instance_config key vm =
    if vm
    then (label_key, key) ∷ []
    else (label_key, key)
      ∷ (text "security.nesting", text "true")
      ∷ (text "security.privileged", text "true")
      ∷ []

-- The last of a list.
abbrev pub last : List Bytes → Option Bytes
last [] = none
last (x ∷ []) = some x
last (x ∷ y ∷ ys) = last (y ∷ ys)

-- `latestSnapshot`: the one in memory, else the last that the host lists.
unfoldable pub latest_snapshot : Bytes → Option (List Bytes) → Projects → Option Bytes
latest_snapshot key listed m =
    let from_host : Option Bytes = elim listed [ none ↦ none | some snaps ↦ last snaps ] in
    elim (lookup key m) [
      | none ↦ from_host
      | some st ↦ if is_empty st.last_snap then from_host else some st.last_snap
    ]

-- A call of the host that may fail.
abbrev pub step : HostCall → Bool → EnsureError → List HostCall × Option EnsureError
step call true e = (call ∷ [], none)
step call false e = (call ∷ [], some e)

-- `seedDataset`, for a key to seed from.
unfoldable pub seed_dataset :
    HostConfig → Bytes → Bytes → HostAnswers → Projects → List HostCall × Option EnsureError
seed_dataset c key seed_from a m =
    let fresh = step (ensure_dataset (dataset c key)) a.dataset_made dataset_failed in
    if is_empty seed_from then fresh else elim (latest_snapshot seed_from a.snapshots m) [
      | none ↦ fresh
      | some snap ↦
          if is_empty snap then fresh else step (clone snap (dataset c key)) a.cloned clone_failed
    ]

abbrev pub instance_spec : HostConfig → Bytes → Bool → InstanceSpec
instance_spec c key vm = record {
  name = daemon_name key;
  image = image_of c vm;
  vm = vm;
  dataset = dataset c key;
  mount_path = c.mount_path;
  certs_host_path = c.certs_host_path;
  config = instance_config key vm;
}

-- The second half of `ensureInstance`: the dataset, the launch and the egress profile.
unfoldable pub launch_instance :
    HostConfig
    → Bytes
    → Bool
    → Bool
    → Bytes
    → HostAnswers
    → Projects
    → List HostCall × Option EnsureError
launch_instance c key vm strict seed_from a m =
    let (seeded, failed) = seed_dataset c key seed_from a m in
    elim failed [
      | some e ↦ (seeded, some e)
      | none ↦
          if not a.launched
          then (seeded ++ (launch (instance_spec c key vm) ∷ []), some launch_failed)
          else (
            seeded
                ++ (launch (instance_spec c key vm) ∷ apply_egress (daemon_name key) strict ∷ []),
            none,
          )
    ]

-- An instance that is there: it runs, or it is started.
unfoldable pub start_instance : Bytes → HostAnswers → List HostCall × Option EnsureError
start_instance key a = elim a.running [
  | none ↦ ([], some running_failed)
  | some true ↦ ([], none)
  | some false ↦ step (start (daemon_name key)) a.started start_failed
]

-- `ensureInstance`.
unfoldable pub ensure_instance :
    HostConfig → BuildProjectSpec → Bool → Bool → Bytes → HostAnswers → Projects → Ensuring
ensure_instance c spec vm strict seed_from a m =
    let m' = register spec vm m in
    let (log, error) : List HostCall × Option EnsureError = elim a.exists [
      | none ↦ ([], some exists_failed)
      | some true ↦ start_instance spec.key a
      | some false ↦ launch_instance c spec.key vm strict seed_from a m'
    ] in
    record { log = log; projects = m'; error = error }

-- `Ensure`.
unfoldable pub ensure_local :
    HostConfig → BuildProjectSpec → Bool → HostAnswers → Projects → Ensuring
ensure_local c spec untrusted a m =
    if untrusted
    then (if is_empty c.vm_image
        then record { log = []; projects = m; error = some no_vm_image }
        else ensure_instance c (derive_child spec [] fork_child (fork_key spec.key)) true
            c.fork_egress_strict spec.key a m)
    else ensure_instance c spec false false [] a m

-- `Fanout`, from the clone `i` on, with the answers for each.
unfoldable pub fanout_local : HostConfig → Bytes → ℕ → ℕ → (ℕ → HostAnswers) → Projects → Ensuring
fanout_local c key i zero answers m = record { log = []; projects = m; error = none }
fanout_local c key i (suc n) answers m =
    let spec = derive_child (bare_spec key) [] clone_child (clone_key key (pos i)) in
    let one = ensure_instance c spec false false key (answers i) m in
    let rest = fanout_local c key (i + 1) n answers one.projects in
    elim one.error [
      | some e ↦ record { log = one.log; projects = one.projects; error = some (fanout_failed i) }
      | none ↦ record { log = one.log ++ rest.log; projects = rest.projects; error = rest.error }
    ]
