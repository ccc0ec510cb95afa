-- ===== src/Provisioner/Local/Instances/Isolated.antt =====
-- `Ensure` of internal/provisioner/local/local.go: what a request that is not trusted may do to the host.
use buildkit_operator.Base.{
  ◌≡◌, refl, subst, ◌∙◌, ◌⊎◌, inl, inr, Bool, true, false, none, some, [], is_empty, All,
  All-append, Bytes, text, bytes_eq, lookup, lookup-insert, Bool-cases, Option-cases,
}
use buildkit_operator.Router.{daemon_name, fork_key}
use buildkit_operator.Api.Types.{BuildProjectSpec}
use buildkit_operator.Api.Derive.{fork_child, derive_child, derive_child-IsChild}
use buildkit_operator.Provisioner.Local.{Projects, register}
use buildkit_operator.Provisioner.Local.Instances.{
  HostConfig, HostCall, ensure_dataset, clone, launch, start, stop, apply_egress, snapshot,
  destroy_snapshot, EnsureError, no_vm_image, HostAnswers, Ensuring, dataset, image_of,
  instance_config, latest_snapshot, step, clone_failed, dataset_failed, start_failed, instance_spec,
  seed_dataset, launch_instance, start_instance, ensure_instance, ensure_local,
}

-- What may be asked of the host for the fork of a key: its own dataset, its own instance as an
-- unprivileged VM of the VM image, and the egress profile of forks.
abbrev pub IsOfFork : HostConfig → Bytes → HostCall → Type 0
IsOfFork c key (ensure_dataset ds) = ds ≡ dataset c key
IsOfFork c key (clone snap ds) = ds ≡ dataset c key
IsOfFork c key (launch i) =
    (i.vm ≡ true)
    × (i.image ≡ c.vm_image)
    × (i.name ≡ daemon_name key)
    × (i.dataset ≡ dataset c key)
    × (lookup (text "security.privileged") i.config ≡ none)
IsOfFork c key (start name) = name ≡ daemon_name key
IsOfFork c key (apply_egress name strict) =
    (name ≡ daemon_name key) × (strict ≡ c.fork_egress_strict)
IsOfFork c key (stop name) = ⊥
IsOfFork c key (snapshot ds name) = ⊥
IsOfFork c key (destroy_snapshot name) = ⊥

-- A state is registered under the key of its spec, and no other changes.
register-frame :
    (spec : BuildProjectSpec) (vm : Bool) (m : Projects) (k : Bytes)
    → bytes_eq spec.key k ≡ false
    → lookup k (register spec vm m) ≡ lookup k m
unfolding register
register-frame spec vm m k apart = elim (Option-cases (lookup spec.key m)) [
  | inl fresh ↦ rw (fresh, register) (lookup-insert spec.key k _ m ∙ rw apart)
  | inr (st, there) ↦
      rw (there, register)
        (elim (Bool-cases (is_empty st.spec.repo)) [
          | inl bare ↦ rw bare (lookup-insert spec.key k _ m ∙ rw apart)
          | inr known ↦ rw known
        ])
]

module _ (c : HostConfig) (key : Bytes) where
  step-IsOfFork :
      (call : HostCall) (fine : Bool) (e : EnsureError)
      → IsOfFork c key call
      → All (IsOfFork c key) (step call fine e).0
  step-IsOfFork call true e h = (h, tt)
  step-IsOfFork call false e h = (h, tt)

  seed_dataset-IsOfFork :
      (seed_from : Bytes) (a : HostAnswers) (m : Projects)
      → All (IsOfFork c key) (seed_dataset c key seed_from a m).0
  unfolding seed_dataset
  seed_dataset-IsOfFork seed_from a m =
      let fresh =
        step-IsOfFork (ensure_dataset (dataset c key)) a.dataset_made dataset_failed refl in
      elim (Bool-cases (is_empty seed_from)) [
        | inl unseeded ↦ rw unseeded fresh
        | inr seeded ↦ rw seeded (elim (Option-cases (latest_snapshot seed_from a.snapshots m)) [
          | inl missing ↦ rw missing fresh
          | inr (snap, there) ↦ rw there (elim (Bool-cases (is_empty snap)) [
            | inl blank ↦ rw blank fresh
            | inr taken ↦
                rw taken (step-IsOfFork (clone snap (dataset c key)) a.cloned clone_failed refl)
          ])
        ])
      ]

  launch_instance-IsOfFork :
      (seed_from : Bytes) (a : HostAnswers) (m : Projects)
      → is_empty c.vm_image ≡ false
      → All (IsOfFork c key) (launch_instance c key true c.fork_egress_strict seed_from a m).0
  unfolding launch_instance image_of instance_config lookup bytes_eq seed_dataset
  launch_instance-IsOfFork seed_from a m has_image =
      let seeded = seed_dataset-IsOfFork seed_from a m in
      let r = seed_dataset c key seed_from a m in
      let image : image_of c true ≡ c.vm_image = rw has_image in
      let launched : IsOfFork c key (launch (instance_spec c key true)) =
        (refl, image, refl, refl, refl) in
      elim (Option-cases r.1) [
        | inr (e, failed) ↦ rw (failed, launch_instance) seeded
        | inl fine ↦
            rw (fine, launch_instance)
              (elim (Bool-cases a.launched) [
                | inl up ↦
                    rw up (All-append (IsOfFork c key) r.0 _ seeded (launched, ((refl, refl), tt)))
                | inr down ↦ rw down (All-append (IsOfFork c key) r.0 _ seeded (launched, tt))
              ])
      ]

  start_instance-IsOfFork : (a : HostAnswers) → All (IsOfFork c key) (start_instance key a).0
  unfolding start_instance
  start_instance-IsOfFork a = elim (Option-cases a.running) [
    | inl unknown ↦ rw unknown tt
    | inr (running, answered) ↦ rw answered (elim (Bool-cases running) [
      | inl up ↦ rw up tt
      | inr down ↦ rw down (step-IsOfFork (start (daemon_name key)) a.started start_failed refl)
    ])
  ]

ensure_instance-IsOfFork :
    (c : HostConfig) (spec : BuildProjectSpec) (seed_from : Bytes) (a : HostAnswers) (m : Projects)
    → is_empty c.vm_image ≡ false
    → All (IsOfFork c spec.key) (ensure_instance c spec true c.fork_egress_strict seed_from a m).log
unfolding ensure_instance
ensure_instance-IsOfFork c spec seed_from a m has_image = elim (Option-cases a.exists) [
  | inl unknown ↦ rw unknown tt
  | inr (exists, answered) ↦ rw answered (elim (Bool-cases exists) [
    | inl there ↦ rw there (start_instance-IsOfFork c spec.key a)
    | inr missing ↦
        rw missing
          (launch_instance-IsOfFork c spec.key seed_from a (register spec true m) has_image)
  ])
]

ensure_instance-frame :
    (c : HostConfig) (spec : BuildProjectSpec) (vm strict : Bool) (seed_from : Bytes)
    (a : HostAnswers) (m : Projects) (k : Bytes)
    → bytes_eq spec.key k ≡ false
    → lookup k (ensure_instance c spec vm strict seed_from a m).projects ≡ lookup k m
unfolding ensure_instance
ensure_instance-frame c spec vm strict seed_from a m k apart = register-frame spec vm m k apart

-- What `Ensure` does for a fork's key: it refuses, or it acts for that key alone.
abbrev pub IsIsolated : HostConfig → Bytes → Bytes → Projects → Ensuring → Type 0
IsIsolated c key k m r =
    ((is_empty c.vm_image ≡ true)
      × (r ≡ record { log = []; projects = m; error = some no_vm_image }))
    ⊎ ((is_empty c.vm_image ≡ false)
        × All (IsOfFork c key) r.log
        × (lookup k r.projects ≡ lookup k m))

-- For a request that is not trusted, Ensure of the single host refuses without a call and without
-- a change if no VM image is set; else every call is for the fork's own dataset or instance, the
-- instance is launched as a VM of the VM image without the privileged setting, its egress is as
-- strict as configured, no instance is stopped and no snapshot is taken or destroyed, and the
-- state of any key but the fork's stays.
pub ensure_local-IsIsolated :
    (c : HostConfig) (spec : BuildProjectSpec) (a : HostAnswers) (m : Projects) (k : Bytes)
    → bytes_eq (fork_key spec.key) k ≡ false
    → IsIsolated c (fork_key spec.key) k m (ensure_local c spec true a m)
unfolding ensure_local
ensure_local-IsIsolated c spec a m k apart =
    let child = derive_child spec [] fork_child (fork_key spec.key) in
    let keyed = (derive_child-IsChild spec [] fork_child (fork_key spec.key)).keyed in
    elim (Bool-cases (is_empty c.vm_image)) [
      | inl bare ↦ rw bare (inl (refl, refl))
      | inr has_image ↦
          let r = ensure_instance c child true c.fork_egress_strict spec.key a m in
          let acts = ensure_instance-IsOfFork c child spec.key a m has_image in
          let frame =
            ensure_instance-frame c child true c.fork_egress_strict spec.key a m k
              (rw keyed apart) in
          rw has_image
            (inr (refl, subst (λ (key : Bytes). All (IsOfFork c key) r.log) keyed acts, frame))
    ]
