-- ===== src/Controller/Status.antt =====
-- What `Reconcile` of internal/controller/buildproject_controller.go writes into the status, and the set of held rolls.
use buildkit_operator.Base.{
  ℕ, Bool, true, false, ◌||◌, ◌&&◌, not, ltb, if◌then◌else◌, ℤ, pos, leb_ℤ, eqb_ℤ, Option, none,
  some, List, ◌∷◌, length, is_empty, filter, Bytes, text, bytes_eq,
}
use buildkit_operator.Api.Types.{BuildProjectStatus, InflightBuild}
use buildkit_operator.Api.Inflight.{set_inflight}
use buildkit_operator.Controller.Effects.{Read, found, missing, unreadable}
use buildkit_operator.Controller.Elasticity.{phase_from}
use buildkit_operator.Controller.Health.{Pod, daemon_failure}
use buildkit_operator.Controller.Fanout.{is_among}

-- The `Ready` condition, without its times and its message.
pub record Condition : Type 0 where
  pub status : Bytes
  pub reason : Bytes

-- `heldSet.set`; its gauge is the number of keys.
unfoldable pub set_held : List Bytes → Bytes → Bool → List Bytes
set_held keys key true = if is_among key keys then keys else key ∷ keys
set_held keys key false = filter (λ k. not (bytes_eq k key)) keys

-- `boolToCond`.
unfoldable pub bool_to_cond : Bool → Bytes
bool_to_cond true = text "True"
bool_to_cond false = text "False"

-- The ready replicas; a read that fails leaves the zero value.
unfoldable pub ready_of : Read ℤ → ℤ
ready_of (found n) = n
ready_of missing = pos 0
ready_of (unreadable e) = pos 0

-- The phase, with a wedged pod promoted to `Failed`, and the reason.
unfoldable pub phase_of : ℕ → ℤ → Read (List Pod) → Bytes
unfolding bytes_eq
phase_of desired ready pods =
    let phase = phase_from desired ready in
    if bytes_eq phase (text "Scaling") && not (is_empty (daemon_failure pods))
    then text "Failed"
    else phase

-- The status that is written: the inflight set is rewritten when it is stale.
unfoldable pub next_status :
    BuildProjectStatus → List InflightBuild → Bool → ℤ → Bytes → Bytes → BuildProjectStatus
next_status s live rewrites ready phase endpoint' =
    let t = if rewrites then set_inflight live s else s in
    record t { replicas = ready; phase = phase; endpoint = endpoint' }

-- Are the entries rewritten: some expired, some were adopted, or the count disagrees.
unfoldable pub rewrites_inflight : BuildProjectStatus → List InflightBuild → ℕ → Bool → Bool
rewrites_inflight s live expired adopted =
    ltb 0 expired || adopted || not (eqb_ℤ s.inflight_builds (pos (length live)))

abbrev pub ready_condition : ℤ → Bytes → Condition
ready_condition ready phase = record { status = bool_to_cond (leb_ℤ (pos 1) ready); reason = phase }

unfoldable pub same_condition : Option Condition → Condition → Bool
unfolding bytes_eq
same_condition none want = false
same_condition (some c) want = bytes_eq c.status want.status && bytes_eq c.reason want.reason

unfoldable pub status_changed : BuildProjectStatus → Option Condition → ℤ → Bytes → Bytes → Bool
unfolding bytes_eq
status_changed s condition ready phase endpoint' =
    not (eqb_ℤ s.replicas ready)
    || not (bytes_eq s.phase phase)
    || not (bytes_eq s.endpoint endpoint')
    || not (same_condition condition (ready_condition ready phase))
