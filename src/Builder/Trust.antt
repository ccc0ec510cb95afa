-- ===== src/Builder/Trust.antt =====
-- `StatefulSet` of internal/builder/statefulset.go: what a fork's daemon is denied, and what a canonical daemon
-- keeps.
use buildkit_operator.Base.{
  ◌≡◌, refl, ◌⊎◌, inl, inr, true, false, ◌&&◌, not, none, some, List, [], ◌∷◌, is_empty, All,
  lookup, insert, Bytes, text, bytes_eq, bytes_eq_iff, arith, Bool-cases,
}
use buildkit_operator.Router.{is_fork_key}
use buildkit_operator.Api.Types.{BuildProjectSpec}
use buildkit_operator.Builder.Objects.{Container, StatefulSet}
use buildkit_operator.Builder.Settings.{
  Config, label_untrusted, labels_of, pod_labels_of, sandboxed_fork, runtime_class_for,
  profile_privileged, pod_security, sandbox_image, profile_for, image_for, daemon_security,
}
use buildkit_operator.Builder.Container.{
  has_s3_credentials, daemon_container, companion_container, containers_of,
}
use buildkit_operator.Builder.Render.{retention_of, stateful_set}

-- No credentials of the cold cache, and no environment at all.
abbrev pub IsBare : Container → Type 0
IsBare c = (c.env_from_secrets ≡ []) × (c.env ≡ [])

-- The two ways in which a container runs.
abbrev pub IsPrivileged : Container → Type 0
IsPrivileged c =
    c.security ≡ record { privileged = some true; run_as_non_root = none; run_as_user = none }

abbrev pub IsRootless : Container → Type 0
IsRootless c =
    c.security ≡ record { privileged = none; run_as_non_root = some true; run_as_user = some 1000 }

-- Every container and the pod run as the profile of the spec says: privileged, or as the user 1000.
abbrev pub RunsAsProfile : BuildProjectSpec → StatefulSet → Type 0
RunsAsProfile spec set =
    ((spec.security_profile ≡ profile_privileged)
      × All IsPrivileged set.pod.containers
      × (set.pod.security.run_as_user ≡ none))
    ⊎ ((bytes_eq spec.security_profile profile_privileged ≡ false)
        × All IsRootless set.pod.containers
        × (set.pod.security.run_as_non_root ≡ some true)
        × (set.pod.security.run_as_user ≡ some 1000))

-- The daemon comes first and has the image of the configuration, and beside it there is at most the
-- companion with its own.
abbrev pub HasImages : Config → List Container → Type 0
HasImages cfg [] = ⊥
HasImages cfg (d ∷ beside) =
    (d.image ≡ cfg.buildkit_image)
    × (((cfg.companion ≡ false) × (beside ≡ []))
        ⊎ ((cfg.companion ≡ true)
            × (c : Container) × (beside ≡ c ∷ [])
            × (c.image ≡ cfg.companion_image)))

pub record RunsAsSpec (spec : BuildProjectSpec) (cfg : Config) (set : StatefulSet) : Type 0 where
  pub runtime : set.pod.runtime_class_name ≡ none
  pub profile : RunsAsProfile spec set
  pub images : HasImages cfg set.pod.containers

-- Under a sandbox runtime a fork is one privileged container of the sandbox image; without one it runs
-- as its spec says.
abbrev pub IsSandboxed : BuildProjectSpec → Config → StatefulSet → Type 0
IsSandboxed spec cfg set =
    ((is_empty cfg.sandbox_runtime_class ≡ false)
      × (set.pod.runtime_class_name ≡ some cfg.sandbox_runtime_class)
      × (d : Container) × (set.pod.containers ≡ d ∷ [])
      × IsPrivileged d
      × (d.image ≡ sandbox_image cfg))
    ⊎ ((is_empty cfg.sandbox_runtime_class ≡ true) × RunsAsSpec spec cfg set)

pub record IsConfined (spec : BuildProjectSpec) (cfg : Config) (set : StatefulSet) : Type 0 where
  pub marked : lookup label_untrusted set.pod_labels ≡ some (text "true")
  pub bare : All IsBare set.pod.containers
  pub disposable :
      set.retention ≡ some (record { when_deleted = text "Delete"; when_scaled = text "Retain" })
  pub sandbox : IsSandboxed spec cfg set

-- The first container has the secret of the cold cache, if there is one.
abbrev pub HasCredentials : Config → List Container → Type 0
HasCredentials cfg [] = ⊥
HasCredentials cfg (d ∷ beside) =
    ((is_empty cfg.s3_creds_secret ≡ true) × IsBare d)
    ⊎ ((is_empty cfg.s3_creds_secret ≡ false)
        × (d.env_from_secrets ≡ cfg.s3_creds_secret ∷ [])
        × (d.env ≡ (text "AWS_EC2_METADATA_DISABLED", text "true") ∷ []))

pub record IsTrusted (spec : BuildProjectSpec) (cfg : Config) (set : StatefulSet) : Type 0 where
  pub unmarked : lookup label_untrusted set.pod_labels ≡ none
  pub credentials : HasCredentials cfg set.pod.containers
  pub kept : set.retention ≡ none
  pub runs : RunsAsSpec spec cfg set

module _ (spec : BuildProjectSpec) (cfg : Config) where
  fork-IsBare :
      is_fork_key spec.key ≡ true → (profile : Bytes) → All IsBare (containers_of spec cfg profile)
  unfolding containers_of daemon_container companion_container has_s3_credentials
  fork-IsBare fork profile = rw fork (elim (Bool-cases (is_empty cfg.s3_creds_secret)) [
    | inl unset ↦ rw unset (elim (Bool-cases (cfg.companion && not (sandboxed_fork spec cfg))) [
      | inl pair ↦ rw pair ((refl, refl), ((refl, refl), tt))
      | inr alone ↦ rw alone ((refl, refl), tt)
    ])
    | inr creds ↦ rw creds (elim (Bool-cases (cfg.companion && not (sandboxed_fork spec cfg))) [
      | inl pair ↦ rw pair ((refl, refl), ((refl, refl), tt))
      | inr alone ↦ rw alone ((refl, refl), tt)
    ])
  ])

  -- Outside a sandbox the containers run by the profile and have the images of the configuration.
  plain_profile : sandboxed_fork spec cfg ≡ false → RunsAsProfile spec (stateful_set spec cfg)
  unfolding stateful_set profile_for containers_of daemon_container companion_container
      daemon_security pod_security
  plain_profile h = rw h (elim (Bool-cases (bytes_eq spec.security_profile profile_privileged)) [
    | inl privileged ↦ inl (
      (bytes_eq_iff _ _).0 privileged,
      elim (Bool-cases cfg.companion) [
        | inl pair ↦ rw (pair, privileged) (refl, (refl, tt))
        | inr alone ↦ rw (alone, privileged) (refl, tt)
      ],
      rw privileged refl,
    )
    | inr rootless ↦ inr (
      rootless,
      elim (Bool-cases cfg.companion) [
        | inl pair ↦ rw (pair, rootless) (refl, (refl, tt))
        | inr alone ↦ rw (alone, rootless) (refl, tt)
      ],
      rw rootless refl,
      rw rootless refl,
    )
  ])

  plain_images :
      sandboxed_fork spec cfg ≡ false → HasImages cfg (stateful_set spec cfg).pod.containers
  unfolding stateful_set image_for containers_of daemon_container companion_container
  plain_images h = rw h (elim (Bool-cases cfg.companion) [
    | inl pair ↦ rw pair (refl, inr (refl, _, refl, refl))
    | inr alone ↦ rw alone (refl, inl (refl, refl))
  ])

  plain : sandboxed_fork spec cfg ≡ false → RunsAsSpec spec cfg (stateful_set spec cfg)
  unfolding stateful_set runtime_class_for
  plain h = record { runtime = rw h refl; profile = plain_profile h; images = plain_images h }

  boxed :
      sandboxed_fork spec cfg ≡ true
      → (containers_of spec cfg (profile_for spec cfg)
          ≡ daemon_container spec cfg (profile_for spec cfg) ∷ [])
        × IsPrivileged (daemon_container spec cfg (profile_for spec cfg))
        × ((daemon_container spec cfg (profile_for spec cfg)).image ≡ sandbox_image cfg)
  unfolding containers_of daemon_container image_for profile_for daemon_security bytes_eq
  boxed h = rw h (elim (Bool-cases cfg.companion) [
    | inl pair ↦ rw pair (refl, refl, refl)
    | inr alone ↦ rw alone (refl, refl, refl)
  ])

  fork_sandbox : is_fork_key spec.key ≡ true → IsSandboxed spec cfg (stateful_set spec cfg)
  unfolding stateful_set runtime_class_for sandboxed_fork
  fork_sandbox fork = elim (Bool-cases (is_empty cfg.sandbox_runtime_class)) [
    | inl bare ↦ let off : sandboxed_fork spec cfg ≡ false = rw bare in inr (bare, plain off)
    | inr has_runtime ↦
        let on : sandboxed_fork spec cfg ≡ true = rw (has_runtime, fork) in
        let (alone, privileged, image) = boxed on in
        inl (has_runtime, rw on refl, _, alone, privileged, image)
  ]

  fork_marked :
      is_fork_key spec.key ≡ true → lookup label_untrusted (pod_labels_of spec) ≡ some (text "true")
  unfolding pod_labels_of labels_of bytes_eq lookup insert
  fork_marked fork = rw fork

  canonical_unmarked :
      is_fork_key spec.key ≡ false → lookup label_untrusted (pod_labels_of spec) ≡ none
  unfolding pod_labels_of labels_of bytes_eq lookup insert
  canonical_unmarked canonical = rw canonical

  canonical_credentials :
      is_fork_key spec.key ≡ false
      → (profile : Bytes) → HasCredentials cfg (containers_of spec cfg profile)
  unfolding containers_of daemon_container has_s3_credentials
  canonical_credentials canonical profile =
      rw canonical (elim (Bool-cases (is_empty cfg.s3_creds_secret)) [
        | inl unset ↦ rw unset (elim (Bool-cases (cfg.companion && not (sandboxed_fork spec cfg))) [
          | inl pair ↦ rw pair (inl (unset, (refl, refl)))
          | inr alone ↦ rw alone (inl (unset, (refl, refl)))
        ])
        | inr creds ↦ rw creds (elim (Bool-cases (cfg.companion && not (sandboxed_fork spec cfg))) [
          | inl pair ↦ rw pair (inr (creds, refl, refl))
          | inr alone ↦ rw alone (inr (creds, refl, refl))
        ])
      ])

  -- The StatefulSet of a fork has the untrusted label on its pod, no secret and no environment in
  -- any container, and a claim that is deleted with it; with a sandbox runtime configured it runs
  -- under it as one privileged container of the sandbox image, without one as its spec says. That
  -- of any other key has no such label, keeps its claim, runs as its spec says, and has the
  -- credentials of the cold cache on the daemon if they are configured. As its spec says is:
  -- without a runtime class; every rendered container privileged if the security profile is the
  -- privileged one, and otherwise every container and the pod as the user 1000 and not root; the
  -- daemon of the configured image, with the companion of its own image beside it if and only if
  -- there is to be one.
  pub stateful_set-ByTrust :
      ((is_fork_key spec.key ≡ true) × IsConfined spec cfg (stateful_set spec cfg))
      ⊎ ((is_fork_key spec.key ≡ false) × IsTrusted spec cfg (stateful_set spec cfg))
  unfolding stateful_set retention_of sandboxed_fork
  stateful_set-ByTrust = elim (Bool-cases (is_fork_key spec.key)) [
    | inl fork ↦ inl (
      fork,
      record {
        marked = fork_marked fork;
        bare = fork-IsBare fork (profile_for spec cfg);
        disposable = rw fork;
        sandbox = fork_sandbox fork;
      },
    )
    | inr canonical ↦
        let off : sandboxed_fork spec cfg ≡ false = ground arith in
        inr (
          canonical,
          record {
            unmarked = canonical_unmarked canonical;
            credentials = canonical_credentials canonical (profile_for spec cfg);
            kept = rw canonical;
            runs = plain off;
          },
        )
  ]
