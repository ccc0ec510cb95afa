-- ===== src/Builder/Wiring.antt =====
-- `StatefulSet` of internal/builder/statefulset.go: mounts have volumes, and the socket is where the probes and
-- the companion look for it.
use buildkit_operator.Base.{
  ℤ, Has, ◌≡◌, refl, ◌⊎◌, inl, inr, Bool, true, false, ◌&&◌, not, some, List, [], ◌∷◌, ◌++◌, All,
  Bytes, text, Bool-cases,
}
use buildkit_operator.Api.Types.{BuildProjectSpec}
use buildkit_operator.Builder.Objects.{Mount, Volume, Claim, Container, StatefulSet}
use buildkit_operator.Builder.Settings.{
  Config, profile_for, is_privileged, sandboxed_fork, data_dir, sock_addr, run_dir,
}
use buildkit_operator.Builder.Container.{
  buildctl_probe, buildkitd_args, daemon_mounts, daemon_container, companion_container,
  containers_of,
}
use buildkit_operator.Builder.Render.{volumes_of, claim_of, stateful_set}

-- A volume or a claim has the name.
abbrev pub IsDeclared : List Volume → List Claim → Mount → Type 0
IsDeclared volumes claims m =
    Has (λ (v : Volume). v.name ≡ m.name) volumes ⊎ Has (λ (c : Claim). c.name ≡ m.name) claims

abbrev pub MountsAt : Bytes → Bytes → Bool → Container → Type 0
MountsAt name path read_only c =
    Has (λ (m : Mount). (m.name ≡ name) × (m.mount_path ≡ path) × (m.read_only ≡ read_only))
      c.mounts

-- The arguments of a companion name the socket and the cache.
abbrev pub IsTold : Bytes → Bytes → Container → Type 0
IsTold socket cache_dir c =
    (others : List Bytes) × (c.args
      ≡ (text "--buildkit-addr=" ++ socket) ∷ (text "--cache-dir=" ++ cache_dir) ∷ others)

-- The daemon is the first container, and the others stand beside it.
pub record IsWired (set : StatefulSet) : Type 0 where
  pub daemon : Container
  pub beside : List Container
  pub containers : set.pod.containers ≡ daemon ∷ beside
  pub declared :
      All
        (λ (c : Container). All (IsDeclared set.pod.volumes set.claims) c.mounts)
        set.pod.containers
  pub cache_dir : Bytes
  pub socket : Bytes
  pub directory : Bytes
  pub below : Bytes
  pub placed : socket ≡ text "unix://" ++ (directory ++ below)
  pub options : List Bytes
  pub listens : daemon.args ≡ text "--addr" ∷ socket ∷ options
  pub ready : daemon.readiness ≡ some (buildctl_probe socket 5 10)
  pub live : daemon.liveness ≡ some (buildctl_probe socket 15 30)
  pub shared : All (MountsAt (text "run") directory false) set.pod.containers
  pub writes : MountsAt (text "cache") cache_dir false daemon
  pub reads : All (MountsAt (text "cache") cache_dir true) beside
  pub told : All (IsTold socket cache_dir) beside

module _ (spec : BuildProjectSpec) (cfg : Config) (profile : Bytes) where
  abbrev Declared : Container → Type 0
  Declared c = All (IsDeclared (volumes_of cfg profile) (claim_of spec ∷ [])) c.mounts

  daemon-Declared : Declared (daemon_container spec cfg profile)
  unfolding daemon_container daemon_mounts volumes_of claim_of
  daemon-Declared = elim (Bool-cases (is_privileged profile)) [
    | inl privileged ↦ rw privileged (inr (inl refl), (inl (inr (inl refl)), (inl (inl refl), tt)))
    | inr rootless ↦
        rw rootless (
          inr (inl refl),
          (inl (inr (inl refl)), (inl (inl refl), (inl (inr (inr (inl refl))), tt))),
        )
  ]

  companion-Declared : Declared (companion_container spec cfg profile)
  unfolding companion_container volumes_of claim_of
  companion-Declared = elim (Bool-cases (is_privileged profile)) [
    | inl privileged ↦ rw privileged (inr (inl refl), (inl (inl refl), tt))
    | inr rootless ↦ rw rootless (inr (inl refl), (inl (inl refl), tt))
  ]

  daemon-MountsAt :
      MountsAt (text "run") (run_dir profile) false (daemon_container spec cfg profile)
      × MountsAt (text "cache") (data_dir profile) false (daemon_container spec cfg profile)
  unfolding daemon_container daemon_mounts
  daemon-MountsAt = elim (Bool-cases (is_privileged profile)) [
    | inl privileged ↦ rw privileged (inr (inr (inl (refl, refl, refl))), inl (refl, refl, refl))
    | inr rootless ↦ rw rootless (inr (inr (inl (refl, refl, refl))), inl (refl, refl, refl))
  ]

sock_addr-placed :
    (profile : Bytes)
    → (below : Bytes) × (sock_addr profile ≡ text "unix://" ++ (run_dir profile ++ below))
unfolding sock_addr run_dir
sock_addr-placed profile = elim (Bool-cases (is_privileged profile)) [
  | inl privileged ↦ rw privileged (text "/buildkitd.sock", refl)
  | inr rootless ↦ rw rootless (text "/buildkit/buildkitd.sock", refl)
]

buildkitd_args-listens :
    (profile : Bytes) (port : ℤ)
    → (options : List Bytes) × (buildkitd_args profile port
        ≡ text "--addr" ∷ sock_addr profile ∷ options)
unfolding buildkitd_args sock_addr
buildkitd_args-listens profile port = elim (Bool-cases (is_privileged profile)) [
  | inl privileged ↦ rw privileged (_, refl)
  | inr rootless ↦ rw rootless (_, refl)
]

module _ (spec : BuildProjectSpec) (cfg : Config) where
  -- The pod of the daemon with the containers `beside` it.
  wired :
      (beside : List Container)
      → let profile = profile_for spec cfg in
        (stateful_set spec cfg).pod.containers ≡ daemon_container spec cfg profile ∷ beside
        → All (Declared spec cfg profile) beside
        → All (MountsAt (text "run") (run_dir profile) false) beside
        → All (MountsAt (text "cache") (data_dir profile) true) beside
        → All (IsTold (sock_addr profile) (data_dir profile)) beside
        → IsWired (stateful_set spec cfg)
  unfolding stateful_set daemon_container
  wired beside together declared shared reads told =
      let profile = profile_for spec cfg in
      let (below, placed) = sock_addr-placed profile in
      let (options, listens) = buildkitd_args-listens profile cfg.port in
      let (runs, writes) = daemon-MountsAt spec cfg profile in
      record {
        daemon = daemon_container spec cfg profile;
        beside = beside;
        containers = together;
        declared = rw together (daemon-Declared spec cfg profile, declared);
        cache_dir = data_dir profile;
        socket = sock_addr profile;
        directory = run_dir profile;
        below = below;
        placed = placed;
        options = options;
        listens = listens;
        ready = refl;
        live = refl;
        shared = rw together (runs, shared);
        writes = writes;
        reads = reads;
        told = told;
      }

  -- In every rendered StatefulSet each mount names a volume or the claim; the daemon listens first
  -- on a socket that its probes ask, in a directory that every container mounts writable; the
  -- daemon mounts the cache writable, and a companion mounts it at the same place read-only and is
  -- told that place and the socket.
  pub stateful_set-IsWired : IsWired (stateful_set spec cfg)
  unfolding stateful_set containers_of companion_container
  stateful_set-IsWired =
      let profile = profile_for spec cfg in
      elim (Bool-cases (cfg.companion && not (sandboxed_fork spec cfg))) [
        | inl pair ↦
            wired (companion_container spec cfg profile ∷ []) (rw pair)
              (companion-Declared spec cfg profile, tt) (inr (inl (refl, refl, refl)), tt)
              (inl (refl, refl, refl), tt) ((_, refl), tt)
        | inr alone ↦ wired [] (rw alone) tt tt tt tt
      ]
