-- ===== src/Builder/Selection.antt =====
-- internal/builder/statefulset.go: the objects of a project select its pods, and the pods select their nodes.
use buildkit_operator.Base.{
  ◌≡◌, refl, ◌⊎◌, inl, inr, Bool, ◌&&◌, if◌then◌else◌, Option, none, some, All, lookup, insert,
  lookup-insert, Bytes, text, bytes_eq, Bool-cases,
}
use buildkit_operator.Router.{is_fork_key, normalize_arch}
use buildkit_operator.Api.Types.{BuildProjectSpec}
use buildkit_operator.Builder.Objects.{Labels, StatefulSet, Service, Budget}
use buildkit_operator.Builder.Settings.{Config, labels_of, pod_labels_of, arch_node_selector}
use buildkit_operator.Builder.Render.{stateful_set, service, pod_disruption_budget}

-- Every label that is asked for is there.
abbrev pub Selects : Labels → Labels → Type 0
Selects wanted there = All (λ (l : Bytes × Bytes). lookup l.0 there ≡ some l.1) wanted

labels-Selects : (spec : BuildProjectSpec) → Selects (labels_of spec) (pod_labels_of spec)
unfolding labels_of pod_labels_of bytes_eq lookup insert
labels-Selects spec = elim (Bool-cases (is_fork_key spec.key)) [
  | inl fork ↦ rw fork (refl, (refl, (refl, (refl, tt))))
  | inr canonical ↦ rw canonical (refl, (refl, (refl, (refl, tt))))
]

-- The Service and the budget of a project select the pods of its StatefulSet, as that does itself, and
-- the Service is the one that the StatefulSet names.
pub record IsSelected (set : StatefulSet) (sv : Service) (budget : Option Budget) : Type 0 where
  pub own : Selects set.selector set.pod_labels
  pub served : Selects sv.selector set.pod_labels
  pub named : set.service_name ≡ sv.name
  pub together : set.namespace ≡ sv.namespace
  pub guarded :
      (budget ≡ none)
      ⊎ ((b : Budget) × (budget ≡ some b)
          × Selects b.selector set.pod_labels
          × (b.namespace ≡ set.namespace))

-- Every label that the StatefulSet, the Service and the budget of a project select by is on the
-- pods of its StatefulSet with that value, the Service has the name that the StatefulSet serves
-- under, the Service and the budget are in its namespace, for a fork and for any other key.
pub stateful_set-IsSelected :
    (spec : BuildProjectSpec) (cfg : Config) (serving : Bool)
    → IsSelected (stateful_set spec cfg) (service spec cfg) (pod_disruption_budget spec cfg serving)
unfolding stateful_set service pod_disruption_budget
stateful_set-IsSelected spec cfg serving =
    let chosen = labels-Selects spec in
    record {
      own = chosen;
      served = chosen;
      named = refl;
      together = refl;
      guarded = elim (Bool-cases serving) [
        | inl busy ↦ rw busy (inr (_, refl, chosen, refl))
        | inr idle ↦ rw idle (inl refl)
      ];
    }

-- A lookup in the node selector of a daemon gives the normalised architecture of the project under
-- kubernetes.io/arch if pinning is on, and what the configuration has under every other key, or
-- under every key if pinning is off.
pub lookup-arch_node_selector :
    (spec : BuildProjectSpec) (cfg : Config) (j : Bytes)
    → lookup j (arch_node_selector spec cfg) ≡ (
        if cfg.pin_arch_to_node && bytes_eq (text "kubernetes.io/arch") j
        then some (normalize_arch spec.arch)
        else lookup j cfg.daemon_node_selector)
unfolding arch_node_selector
lookup-arch_node_selector spec cfg j = elim (Bool-cases cfg.pin_arch_to_node) [
  | inl pinned ↦ rw pinned (
      lookup-insert (text "kubernetes.io/arch") j (normalize_arch spec.arch)
        cfg.daemon_node_selector)
  | inr free ↦ rw free
]
