-- ===== src/Provisioner/Kube/Projects.antt =====
-- internal/provisioner/k8s/k8s.go: a project is created for a request, its daemon is waited for, its address
-- and its repository are looked up.
pub mod Waiting
use buildkit_operator.Base.{
  ℕ, zero, suc, ◌+◌, ◌≡◌, Bool, true, false, ◌&&◌, ltb, if◌then◌else◌, ℤ, pos, leb_ℤ, ltb_ℤ, Option,
  none, some, List, [], ◌∷◌, ◌++◌, is_empty, Bytes, text, bytes_eq, Time, Duration, time_add,
}
use buildkit_operator.Router.{daemon_name, fork_key, endpoint, endpoint_host}
use buildkit_operator.Api.Types.{BuildProject, BuildProjectSpec}
use buildkit_operator.Api.Derive.{fork_child, derive_child}
use buildkit_operator.Provisioner.Retry.{Fault, Answer, got, failed, absent, already_there}

-- The configuration of the backend.
pub record Config : Type 0 where
  pub namespace : Bytes
  pub port : ℤ
  pub wait : Duration
  pub gateway_host : Bytes
  pub gateway_port : ℤ
  pub default_storage_class : Bytes

-- What is asked of the API, each on the project of a key.
pub data Creation : Type 0 where
  create : BuildProjectSpec → Creation
  stamp : Bytes → Time → Creation

pub record EnsureAnswers : Type 0 where
  pub canonical : Answer BuildProject
  pub existing : Answer BuildProject
  pub created : Option Fault
  pub now : Time

pub record Ensured : Type 0 where
  pub log : List Creation
  pub error : Option Fault

-- The operator's storage class, where the project sets none.
abbrev pub with_class : Config → BuildProjectSpec → BuildProjectSpec
with_class c spec =
    if is_empty spec.storage_class
    then record spec { storage_class = c.default_storage_class }
    else spec

-- The create, and the stamp of a project that was created here.
unfoldable pub create_build_project : Config → BuildProjectSpec → Option Fault → Time → Ensured
create_build_project c spec none now = record {
  log = create (with_class c spec) ∷ (stamp spec.key now ∷ []);
  error = none;
}
create_build_project c spec (some already_there) now = record {
  log = create (with_class c spec) ∷ [];
  error = none;
}
create_build_project c spec (some f) now = record {
  log = create (with_class c spec) ∷ [];
  error = some f;
}

-- `ensureBuildProject`.
unfoldable pub ensure_build_project : Config → BuildProjectSpec → EnsureAnswers → Ensured
ensure_build_project c spec a = elim a.existing [
  | got bp ↦ record { log = []; error = none }
  | failed absent ↦ create_build_project c spec a.created a.now
  | failed f ↦ record { log = []; error = some f }
]

-- The fork's spec: of the live canonical project and its snapshot, or of the request.
unfoldable pub fork_spec : BuildProjectSpec → Answer BuildProject → BuildProjectSpec
fork_spec spec (got canon) =
    derive_child canon.spec canon.status.last_snapshot fork_child (fork_key spec.key)
fork_spec spec (failed f) = derive_child spec [] fork_child (fork_key spec.key)

-- `Ensure`.
unfoldable pub ensure : Config → BuildProjectSpec → Bool → EnsureAnswers → Ensured
ensure c spec untrusted a =
    ensure_build_project c (if untrusted then fork_spec spec a.canonical else spec) a

-- The status of a daemon's StatefulSet, with the generation of its spec.
pub record Workload : Type 0 where
  pub generation : ℤ
  pub observed_generation : ℤ
  pub ready_replicas : ℤ
  pub updated_replicas : ℤ
  pub current_revision : Bytes
  pub update_revision : Bytes

-- `daemonServing`.
unfoldable pub daemon_serving : Workload → Bool
daemon_serving w =
    leb_ℤ w.generation w.observed_generation
    && leb_ℤ (pos 1) w.ready_replicas
    && leb_ℤ (pos 1) w.updated_replicas
    && bytes_eq w.current_revision w.update_revision

-- `Ready`.
unfoldable pub is_ready : Answer Workload → Bool
unfolding daemon_serving
is_ready (got w) = daemon_serving w
is_ready (failed f) = false

-- `Endpoint`.
unfoldable pub daemon_endpoint : Config → Bytes → Bytes
daemon_endpoint c key =
    if is_empty c.gateway_host
    then endpoint key c.namespace c.port
    else endpoint_host (daemon_name key ++ (text "." ++ c.gateway_host))
        (if ltb_ℤ (pos 0) c.gateway_port then c.gateway_port else c.port)

-- `ProjectRepo`: a project that is gone has no repository and is no error.
unfoldable pub project_repo : Answer BuildProject → Answer (Option Bytes)
project_repo (got bp) = got (some bp.spec.repo)
project_repo (failed absent) = got none
project_repo (failed f) = failed f

-- One round of `WaitReady`: the answer to its read, the clock after it, and whether the caller is
-- gone before the next round.
pub record Poll : Type 0 where
  pub answer : Answer Workload
  pub now : Time
  pub cancelled : Bool

pub data Waited : Type 0 where
  ready timed_out gave_up : Waited

-- `WaitReady` from the round `i` on; `none` if it is still waiting after so many rounds.
unfoldable pub wait_rounds : ℕ → ℕ → (ℕ → Poll) → Time → Option Waited
wait_rounds zero i polls deadline = none
wait_rounds (suc n) i polls deadline =
    let p = polls i in
    let later = wait_rounds n (i + 1) polls deadline in
    if is_ready p.answer
    then some ready
    else if ltb deadline p.now
    then some timed_out
    else if p.cancelled
    then some gave_up
    else later

unfoldable pub wait_ready : ℕ → Config → Time → (ℕ → Poll) → Option Waited
wait_ready n c started polls = wait_rounds n 0 polls (time_add started c.wait)
