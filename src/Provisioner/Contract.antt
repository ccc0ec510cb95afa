-- ===== src/Provisioner/Contract.antt =====
-- The contract of internal/provisioner/provisioner.go, as far as it concerns the builds of a project: what a
-- backend keeps, its operations at one instant, and the laws that the handlers rely on.
pub mod Host
pub mod Cluster
pub mod Routed
use buildkit_operator.Base.{
  ◌≤◌, length, ◌≡◌, Bool, true, false, if◌then◌else◌, List, is_empty, Bytes, bytes_eq, Time,
}
use buildkit_operator.Router.{fork_key}
use buildkit_operator.Api.Types.{InflightBuild, BuildProjectSpec}
use buildkit_operator.Api.Inflight.{inflight_cap, start_inflight, end_inflight}

-- `builds` are those of a key that are still running; `prepare` is `Ensure`, `begin` is
-- `StartInflight`, `release` is `EndInflight` and `stamp` is `Touch`.
pub record Backend (sha256 : Bytes → Bytes) (now : Time) : Type 1 where
  pub State : Type 0
  pub builds : Bytes → State → List InflightBuild
  pub IsThere : Bytes → State → Type 0
  pub prepare : BuildProjectSpec → Bool → State → State
  pub begin : Bytes → Bytes → State → State
  pub release : Bytes → Bytes → State → State × Bool
  pub stamp : Bytes → State → State
  -- `Ensure` makes the project and touches no build.
  pub prepare_there :
      (spec : BuildProjectSpec) (untrusted : Bool) (s : State)
      → IsThere (if untrusted then fork_key spec.key else spec.key) (prepare spec untrusted s)
  pub prepare_builds :
      (spec : BuildProjectSpec) (untrusted : Bool) (s : State) (k : Bytes)
      → builds k (prepare spec untrusted s) ≡ builds k s
  -- A build is registered with its own project and no other.
  pub begin_builds :
      (key id : Bytes) (s : State) (k : Bytes)
      → IsThere key s
      → builds k (begin key id s)
        ≡ (if bytes_eq key k then start_inflight sha256 (builds key s) id now else builds k s)
  -- A named build is released from its own project and no other, and that is reported.
  pub release_builds :
      (key id : Bytes) (s : State) (k : Bytes)
      → is_empty id ≡ false
      → length (builds key s) ≤ inflight_cap
      → builds k (release key id s).0
        ≡ (if bytes_eq key k then (end_inflight sha256 (builds key s) id).0 else builds k s)
  pub release_reports :
      (key id : Bytes) (s : State)
      → is_empty id ≡ false
      → length (builds key s) ≤ inflight_cap
      → (release key id s).1 ≡ (end_inflight sha256 (builds key s) id).1
