-- ===== src/Controller/Health.antt =====
-- `daemonFailure` of internal/controller/buildproject_controller.go: is the daemon's pod wedged?
use buildkit_operator.Base.{
  Bool, false, ◌||◌, Option, none, some, List, [], ◌∷◌, ◌++◌, Bytes, text, bytes_eq, if◌then◌else◌,
}
use buildkit_operator.Controller.Effects.{Read, found, missing, unreadable}

-- The parts of a pod's status that are read: reasons of a waiting and of a terminated container.
pub record ContainerStatus : Type 0 where
  pub name : Bytes
  pub waiting : Option Bytes
  pub last_terminated : Option Bytes

pub record Pod : Type 0 where
  pub name : Bytes
  pub phase : Bytes
  pub containers : List ContainerStatus

unfoldable pub is_blocked_reason : Bytes → Bool
unfolding bytes_eq
is_blocked_reason reason =
    bytes_eq reason (text "CrashLoopBackOff")
    || bytes_eq reason (text "ImagePullBackOff")
    || bytes_eq reason (text "ErrImagePull")
    || bytes_eq reason (text "CreateContainerError")
    || bytes_eq reason (text "CreateContainerConfigError")
    || bytes_eq reason (text "InvalidImageName")

unfoldable pub is_blocked : Option Bytes → Bool
is_blocked none = false
is_blocked (some reason) = is_blocked_reason reason

unfoldable pub is_oom_killed : Option Bytes → Bool
unfolding bytes_eq
is_oom_killed none = false
is_oom_killed (some reason) = bytes_eq reason (text "OOMKilled")

abbrev reason_text : Option Bytes → Bytes
reason_text none = []
reason_text (some reason) = reason

-- The inner loop, over the containers of a pod.
unfoldable pub container_failure : List ContainerStatus → Option Bytes
container_failure [] = none
container_failure (cs ∷ rest) =
    let later = container_failure rest in
    if is_blocked cs.waiting
    then some (cs.name ++ (text ": " ++ reason_text cs.waiting))
    else if is_oom_killed cs.last_terminated
    then some (cs.name ++ text ": OOMKilled")
    else later

-- The outer loop, over the pods.
unfoldable pub pods_failure : List Pod → Bytes
unfolding container_failure
pods_failure [] = []
pods_failure (p ∷ ps) =
    let later : Bytes = elim (container_failure p.containers) [
      | none ↦ pods_failure ps
      | some reason ↦ reason
    ] in
    if bytes_eq p.phase (text "Failed")
    then text "pod " ++ (p.name ++ text " phase=Failed")
    else later

-- `daemonFailure`: a list that fails reads as a daemon that is still starting.
unfoldable pub daemon_failure : Read (List Pod) → Bytes
unfolding pods_failure
daemon_failure (found pods) = pods_failure pods
daemon_failure missing = []
daemon_failure (unreadable e) = []
