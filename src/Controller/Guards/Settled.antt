-- ===== src/Controller/Guards/Settled.antt =====
-- What `ensureService`, `ensurePDB` and `reapFork` leave behind.
use buildkit_operator.Base.{
  ◌≡◌, refl, Bool, true, false, Option, none, some, List, [], ◌∷◌, Bytes, bytes_eq_iff,
  bytes_eq_refl, eqb_ℤ, ℤ, arith,
}
use buildkit_operator.Api.Types.{BuildProject}
use buildkit_operator.Controller.Effects.{
  Error, Read, found, missing, unreadable, Written, done, gone, refused, ok, return,
}
use buildkit_operator.Controller.Guards.{
  Service, Budget, GuardAction, create_service, update_service, create_budget, update_budget,
  delete_budget, delete_project, same_service, ensure_service, is_converged, ensure_pdb, budget_of,
  reap_cache, reap_fork,
}

-- What the API server holds after the actions, all granted.
abbrev pub service_after : Read Service → List GuardAction → Read Service
service_after s [] = s
service_after s (create_service x ∷ log) = service_after (found x) log
service_after s (update_service x ∷ log) = service_after (found x) log
service_after s (_ ∷ log) = service_after s log

abbrev pub budget_after : Read Budget → List GuardAction → Read Budget
budget_after s [] = s
budget_after s (create_budget x ∷ log) = budget_after (found x) log
budget_after s (update_budget x ∷ log) = budget_after (found x) log
budget_after s (delete_budget ∷ log) = budget_after missing log
budget_after s (_ ∷ log) = budget_after s log

eqb_ℤ_refl : (n : ℤ) → eqb_ℤ n n ≡ true
eqb_ℤ_refl n = ground arith

same_service_refl : (s : Service) → same_service s s ≡ true
unfolding same_service
same_service_refl s = rw (bytes_eq_refl s.kind, eqb_ℤ_refl s.port, bytes_eq_refl s.selector) refl

same_service-≡ : (s t : Service) → same_service s t ≡ true → s ≡ t
unfolding same_service
same_service-≡ s t h =
    ground (arith, bytes_eq_iff s.kind t.kind, bytes_eq_iff s.selector t.selector)

-- A run of ensureService that succeeds leaves the wanted Service, and a further run on it asks for
-- nothing.
pub ensure_service_settles :
    (want : Service) (owner : Option Error) (existing : Read Service) (w v : Written)
    → (ensure_service want owner existing w).result ≡ ok tt
    → (service_after existing (ensure_service want owner existing w).log ≡ found want)
      × (ensure_service want none (found want) v ≡ return tt)
unfolding ensure_service
ensure_service_settles want (some e) existing w v h = absurd (cc h)
ensure_service_settles want none missing done v h = (refl, rw (same_service_refl want) refl)
ensure_service_settles want none missing gone v h = absurd (cc h)
ensure_service_settles want none missing (refused e) v h = absurd (cc h)
ensure_service_settles want none (unreadable e) w v h = absurd (cc h)
ensure_service_settles want none (found s) w v h =
    ground (arith, same_service_refl want, same_service-≡ s want)

-- The budget that a run leaves.
abbrev pub Leaves : Option Budget → Read Budget → Type 0
Leaves none after = after ≡ missing
Leaves (some want) (found b) = is_converged b want ≡ true
Leaves (some want) _ = ⊥

-- A run of ensurePDB that succeeds leaves no budget if no build runs, and a budget that has
-- converged to the wanted one if builds run.
pub ensure_pdb_settles :
    (labels : BuildProject → Bytes) (bp : BuildProject) (serving : Bool) (owner : Option Error)
    (existing : Read Budget) (w : Written)
    → (ensure_pdb (budget_of labels bp serving) owner existing w).result ≡ ok tt
    → Leaves
        (budget_of labels bp serving)
        (budget_after existing (ensure_pdb (budget_of labels bp serving) owner existing w).log)
unfolding ensure_pdb budget_of is_converged
ensure_pdb_settles labels bp false owner missing w h = refl
ensure_pdb_settles labels bp false owner (unreadable e) w h = absurd (cc h)
ensure_pdb_settles labels bp false owner (found b) done h = refl
ensure_pdb_settles labels bp false owner (found b) gone h = refl
ensure_pdb_settles labels bp false owner (found b) (refused e) h = absurd (cc h)
ensure_pdb_settles labels bp true (some e) existing w h = absurd (cc h)
ensure_pdb_settles labels bp true none missing done h = rw (bytes_eq_refl (labels bp)) refl
ensure_pdb_settles labels bp true none missing gone h = absurd (cc h)
ensure_pdb_settles labels bp true none missing (refused e) h = absurd (cc h)
ensure_pdb_settles labels bp true none (unreadable e) w h = absurd (cc h)
ensure_pdb_settles labels bp true none (found b) w h = ground (arith, bytes_eq_refl (labels bp))

-- Does the log ask for the project to be deleted?
abbrev pub asks_for_project : List GuardAction → Bool
asks_for_project [] = false
asks_for_project (delete_project name ∷ log) = true
asks_for_project (_ ∷ log) = asks_for_project log

abbrev pub is_cache_gone : Read (Unit {0}) → Written → Bool
is_cache_gone missing w = true
is_cache_gone (found _) done = true
is_cache_gone (found _) gone = true
is_cache_gone _ _ = false

-- reapFork asks for the project to be deleted exactly if its cache volume is missing or its
-- deletion is granted or finds nothing.
pub reap_fork-after_cache :
    (bp : BuildProject) (pvc : Read (Unit {0})) (pvc_deleted deleted : Written)
    → asks_for_project (reap_fork bp pvc pvc_deleted deleted).log ≡ is_cache_gone pvc pvc_deleted
unfolding reap_fork reap_cache
reap_fork-after_cache bp pvc v w = ground arith
