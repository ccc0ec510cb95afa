-- ===== src/Controller/Guards.antt =====
-- `ensureService`, `ensurePDB` and `reapFork` of internal/controller/buildproject_controller.go, and what
-- `Service` and `PodDisruptionBudget` of internal/builder/statefulset.go render for them.
pub mod Settled
use buildkit_operator.Base.{
  ℕ, ◌≡◌, Bool, true, false, ◌&&◌, ltb, ◌==◌, if◌then◌else◌, ℤ, eqb_ℤ, Option, none, some, List, [],
  ◌∷◌, ◌++◌, length, Bytes, text, bytes_eq,
}
use buildkit_operator.Router.{daemon_name, cache_pvc_name}
use buildkit_operator.Api.Types.{BuildProject}
use buildkit_operator.Controller.Effects.{
  Error, Read, found, missing, unreadable, Written, Run, return, fail, write, write_ignoring_gone,
  ◌>>=◌,
}

-- The fields of a Service that are converged; the ports come as one, the daemon's.
pub record Service : Type 0 where
  pub kind : Bytes
  pub port : ℤ
  pub selector : Bytes

-- A PodDisruptionBudget: what is converged, and whether it has owners.
pub record Budget : Type 0 where
  pub min_available : ℕ
  pub selector : Bytes
  pub owned : Bool

-- `builder.Service`, over the labels of the project.
unfoldable pub service_of : (BuildProject → Bytes) → ℤ → BuildProject → Service
service_of labels port bp = record { kind = text "ClusterIP"; port = port; selector = labels bp }

-- `builder.PodDisruptionBudget`, with the owner that `SetControllerReference` gives it.
unfoldable pub budget_of : (BuildProject → Bytes) → BuildProject → Bool → Option Budget
budget_of labels bp false = none
budget_of labels bp true = some (record { min_available = 1; selector = labels bp; owned = true })

pub data GuardAction : Type 0 where
  create_service : Service → GuardAction
  update_service : Service → GuardAction
  create_budget : Budget → GuardAction
  update_budget : Budget → GuardAction
  delete_budget : GuardAction
  delete_pvc : Bytes → GuardAction
  delete_project : Bytes → GuardAction

unfoldable pub same_service : Service → Service → Bool
unfolding bytes_eq
same_service a b = bytes_eq a.kind b.kind && eqb_ℤ a.port b.port && bytes_eq a.selector b.selector

-- `ensureService`.
unfoldable pub ensure_service :
    Service → Option Error → Read Service → Written → Run GuardAction (Unit {0})
ensure_service want (some e) existing w = fail e
ensure_service want none missing w = write (create_service want) w tt
ensure_service want none (unreadable e) w = fail e
ensure_service want none (found sv) w =
    if same_service sv want then return tt else write (update_service want) w tt

unfoldable pub is_converged : Budget → Budget → Bool
unfolding bytes_eq
is_converged b want =
    (b.min_available == want.min_available) && bytes_eq b.selector want.selector && b.owned

-- `ensurePDB`; the answer to its read comes before the test on the wanted budget.
unfoldable pub ensure_pdb :
    Option Budget → Option Error → Read Budget → Written → Run GuardAction (Unit {0})
ensure_pdb none owner missing w = return tt
ensure_pdb none owner (unreadable e) w = fail e
ensure_pdb none owner (found b) w = write_ignoring_gone delete_budget w tt
ensure_pdb (some want) (some e) existing w = fail e
ensure_pdb (some want) none missing w = write (create_budget want) w tt
ensure_pdb (some want) none (unreadable e) w = fail e
ensure_pdb (some want) none (found b) w =
    if is_converged b want then return tt else write (update_budget want) w tt

-- The first half of `reapFork`: the cache volume goes, or there is none.
unfoldable pub reap_cache : Bytes → Read (Unit {0}) → Written → Run GuardAction (Unit {0})
reap_cache name (found _) w = write_ignoring_gone (delete_pvc name) w tt
reap_cache name missing w = return tt
reap_cache name (unreadable e) w = fail e

-- `reapFork`.
unfoldable pub reap_fork :
    BuildProject → Read (Unit {0}) → Written → Written → Run GuardAction (Unit {0})
reap_fork bp pvc pvc_deleted deleted =
    reap_cache (cache_pvc_name bp.spec.key) pvc pvc_deleted
    >>= (λ _. write_ignoring_gone (delete_project bp.name) deleted tt)
