-- ===== src/Controller/Fanout.antt =====
-- `reconcileFanout` of internal/controller/buildproject_controller.go: clones beyond the wanted number are
-- pruned when nothing builds on them, and missing ones are created from the last snapshot.
pub mod Spares
use buildkit_operator.Base.{
  ℕ, zero, suc, ◌≡◌, Bool, true, false, ◌||◌, if◌then◌else◌, ℤ, pos, negsuc, leb_ℤ, Option, none,
  some, List, [], ◌∷◌, ◌++◌, length, is_empty, Bytes, text, bytes_eq, Time,
}
use buildkit_operator.Api.Types.{BuildProject, BuildProjectSpec, InflightBuild}
use buildkit_operator.Api.Derive.{clone_child, derive_child}
use buildkit_operator.Router.{clone_key}
use buildkit_operator.Controller.Effects.{
  Error, not_found, Read, found, missing, unreadable, Written, done, gone, refused, Result, ok, err,
}
use buildkit_operator.Controller.Elasticity.{Settings}
use buildkit_operator.Controller.Inflight.{fresh_inflight_entries}

pub data FanoutAction : Type 0 where
  delete_clone : Bytes → FanoutAction
  create_clone : Bytes → List (Bytes × Bytes) → BuildProjectSpec → FanoutAction

-- What the environment answers, by the name of the clone.
pub record FanoutAnswers : Type 0 where
  pub clones : Read (List BuildProject)
  pub fresh : Bytes → Read BuildProject
  pub fresh_now : Bytes → Time
  pub deleted : Bytes → Written
  pub existing : Bytes → Read (Unit {0})
  pub owner : Bytes → Option Error
  pub created : Bytes → Written

-- Actions, the flag that a busy clone was left in place, and the error.
pub record FanoutRun : Type 0 where
  pub log : List FanoutAction
  pub deferred : Bool
  pub error : Option Error

-- `i := 1; i <= Fanout`.
unfoldable pub fanout_count : ℤ → ℕ
fanout_count (pos n) = n
fanout_count (negsuc n) = 0

-- The keys of the clones `i`, ..., `i + n - 1`.
unfoldable pub clone_keys : Bytes → ℕ → ℕ → List Bytes
clone_keys key i zero = []
clone_keys key i (suc n) = clone_key key (pos i) ∷ clone_keys key (suc i) n

unfoldable pub is_among : Bytes → List Bytes → Bool
is_among name [] = false
is_among name (k ∷ ks) = bytes_eq name k || is_among name ks

-- The actions before a step that goes on, and its flag.
abbrev pub after_action : FanoutAction → FanoutRun → FanoutRun
after_action x rest = record { log = x ∷ rest.log; deferred = rest.deferred; error = rest.error }

-- The loop over the clones that are listed.
unfoldable pub prune_clones :
    Settings → FanoutAnswers → List Bytes → Bool → List BuildProject → FanoutRun
prune_clones r a wanted deferred [] = record { log = []; deferred = deferred; error = none }
prune_clones r a wanted deferred (clone ∷ clones) =
    let name = clone.name in
    let kept = prune_clones r a wanted deferred clones in
    let postponed = prune_clones r a wanted true clones in
    if is_among name wanted
    then kept
    else elim (fresh_inflight_entries r (a.fresh name) (a.fresh_now name)) [
      | err e ↦ record { log = []; deferred = deferred; error = some e }
      | ok live ↦
          if is_empty live
          then elim (a.deleted name) [
            | refused e ↦ record {
              log = delete_clone name ∷ [];
              deferred = deferred;
              error = some e;
            }
            | done ↦ after_action (delete_clone name) kept
            | gone ↦ after_action (delete_clone name) kept
          ]
          else postponed
    ]

abbrev pub project_key_label : Bytes
project_key_label = text "buildkit-operator.socialgouv.github.io/project-key"

abbrev pub clone_of_label : Bytes
clone_of_label = text "buildkit-operator.socialgouv.github.io/clone-of"

-- The labels of a clone, by which it is found again.
abbrev pub clone_labels : Bytes → List (Bytes × Bytes)
clone_labels key = (project_key_label, key) ∷ (clone_of_label, key) ∷ []

-- The loop that creates what is missing.
unfoldable pub create_clones : BuildProject → Bytes → FanoutAnswers → Bool → List Bytes → FanoutRun
create_clones bp snapshot a deferred [] = record { log = []; deferred = deferred; error = none }
create_clones bp snapshot a deferred (ckey ∷ ckeys) =
    let rest = create_clones bp snapshot a deferred ckeys in
    let action =
      create_clone ckey (clone_labels bp.spec.key)
        (derive_child bp.spec snapshot clone_child ckey) in
    elim (a.existing ckey) [
      | found _ ↦ rest
      | unreadable e ↦ record { log = []; deferred = deferred; error = some e }
      | missing ↦ elim (a.owner ckey) [
        | some e ↦ record { log = []; deferred = deferred; error = some e }
        | none ↦ elim (a.created ckey) [
          | refused e ↦ record { log = action ∷ []; deferred = deferred; error = some e }
          | gone ↦ record { log = action ∷ []; deferred = deferred; error = some not_found }
          | done ↦ after_action action rest
        ]
      ]
    ]

-- Two parts in a row, the second if the first has no error.
abbrev pub then_also : FanoutRun → (Bool → FanoutRun) → FanoutRun
then_also m f = elim m.error [
  | some e ↦ m
  | none ↦ record {
    log = m.log ++ (f m.deferred).log;
    deferred = (f m.deferred).deferred;
    error = (f m.deferred).error;
  }
]

-- The second half of `reconcileFanout`.
unfoldable pub grow_fanout : BuildProject → Bytes → FanoutAnswers → Bool → FanoutRun
grow_fanout bp snapshot a deferred =
    if leb_ℤ bp.spec.fanout (pos 0) || is_empty snapshot
    then record { log = []; deferred = deferred; error = none }
    else create_clones bp snapshot a deferred
        (clone_keys bp.spec.key 1 (fanout_count bp.spec.fanout))

-- `reconcileFanout`, with the last snapshot as it stands after `maybeSnapshot`.
unfoldable pub reconcile_fanout : Settings → BuildProject → Bytes → FanoutAnswers → FanoutRun
reconcile_fanout r bp snapshot a = elim a.clones [
  | missing ↦ record { log = []; deferred = false; error = some not_found }
  | unreadable e ↦ record { log = []; deferred = false; error = some e }
  | found clones ↦
      then_also
        (prune_clones r a (clone_keys bp.spec.key 1 (fanout_count bp.spec.fanout)) false clones)
        (grow_fanout bp snapshot a)
]
