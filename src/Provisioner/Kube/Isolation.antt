-- ===== src/Provisioner/Kube/Isolation.antt =====
-- `Ensure` of internal/provisioner/k8s/k8s.go: what a request that is not trusted may create.
use buildkit_operator.Base.{
  ◌≡◌, refl, ◌∙◌, ◌⊎◌, inl, inr, true, Option, none, some, [], ◌∷◌, Bytes, Time, arith, ◌≢◌, List,
  is_empty, All, Has, Bool-cases, false,
}
use buildkit_operator.Router.{fork_key}
use buildkit_operator.Api.Types.{BuildProject, BuildProjectSpec}
use buildkit_operator.Api.Derive.{fork_child, IsChild, derive_child-IsChild}
use buildkit_operator.Provisioner.Retry.{
  Fault, Answer, got, failed, conflict, absent, already_there, other,
}
use buildkit_operator.Provisioner.Kube.Projects.{
  Config, Creation, create, stamp, EnsureAnswers, Ensured, with_class, create_build_project,
  ensure_build_project, fork_spec, ensure,
}

-- The spec that a fork is derived from, and its seed: the live canonical project and its snapshot, or
-- without one the request and no seed.
abbrev pub parent_of : BuildProjectSpec → Answer BuildProject → BuildProjectSpec × Bytes
parent_of spec (got canon) = (canon.spec, canon.status.last_snapshot)
parent_of spec (failed f) = (spec, [])

-- The storage class of the operator where a spec sets none, and the spec as it is where it sets one.
abbrev pub HasClass : Bytes → BuildProjectSpec → BuildProjectSpec → Type 0
HasClass default child made =
    ((is_empty child.storage_class ≡ true) × (made ≡ record child { storage_class = default }))
    ⊎ ((is_empty child.storage_class ≡ false) × (made ≡ child))

-- What a fork's project is made of.
pub record IsFork (c : Config) (parent : BuildProjectSpec × Bytes) (key : Bytes)
    (made : BuildProjectSpec) : Type 0 where
  pub child : BuildProjectSpec
  pub derived : IsChild parent.0 parent.1 key fork_child child
  pub class : HasClass c.default_storage_class child made
  pub keyed : made.key ≡ key

-- What a write may be for: the fork's project is created where none is, and a project that was created
-- here is stamped.
abbrev pub IsAsked : Config → BuildProjectSpec × Bytes → Bytes → EnsureAnswers → Creation → Type 0
IsAsked c parent key a (create made) = (a.existing ≡ failed absent) × IsFork c parent key made
IsAsked c parent key a (stamp k at) =
    (a.existing ≡ failed absent) × (a.created ≡ none) × (k ≡ key) × (at ≡ a.now)

abbrev pub IsStamp : Creation → Type 0
IsStamp (create made) = ⊥
IsStamp (stamp k at) = Unit {0}

-- One create comes first, and only stamps follow.
abbrev pub IsOneCreate : List Creation → Type 0
IsOneCreate [] = ⊥
IsOneCreate (create made ∷ rest) = All IsStamp rest
IsOneCreate (stamp k at ∷ rest) = ⊥

-- The project is there: it was read, or it was created, here or by another request.
abbrev pub IsThere : EnsureAnswers → Type 0
IsThere a =
    ((bp : BuildProject) × (a.existing ≡ got bp))
    ⊎ ((a.existing ≡ failed absent) × ((a.created ≡ none) ⊎ (a.created ≡ some already_there)))

-- All that is asked of the API for a fork, and what the answer of `Ensure` says.
pub record IsEnsured (c : Config) (parent : BuildProjectSpec × Bytes) (key : Bytes)
    (a : EnsureAnswers) (r : Ensured) : Type 0 where
  pub asks : All (IsAsked c parent key a) r.log
  pub creates : a.existing ≡ failed absent → IsOneCreate r.log
  pub stamps : a.existing ≡ failed absent → a.created ≡ none → Has IsStamp r.log
  pub succeeds : r.error ≡ none → IsThere a
  pub fails :
      (f : Fault)
      → r.error ≡ some f
      → (a.existing ≡ failed f) ⊎ ((a.existing ≡ failed absent) × (a.created ≡ some f))

with_class-key : (c : Config) (spec : BuildProjectSpec) → (with_class c spec).key ≡ spec.key
with_class-key c spec = ground arith

with_class-HasClass :
    (c : Config) (child : BuildProjectSpec)
    → HasClass c.default_storage_class child (with_class c child)
with_class-HasClass c child = elim (Bool-cases (is_empty child.storage_class)) [
  | inl unset ↦ rw unset (inl (refl, refl))
  | inr given ↦ rw given (inr (refl, refl))
]

pub fork_spec-IsChild :
    (spec : BuildProjectSpec) (canonical : Answer BuildProject)
    → IsChild
        (parent_of spec canonical).0
        (parent_of spec canonical).1
        (fork_key spec.key)
        fork_child
        (fork_spec spec canonical)
unfolding fork_spec
fork_spec-IsChild spec (got canon) = derive_child-IsChild _ _ fork_child _
fork_spec-IsChild spec (failed f) = derive_child-IsChild _ _ fork_child _

module _ (c : Config) (parent : BuildProjectSpec × Bytes) (key : Bytes) (child : BuildProjectSpec)
    (made : IsChild parent.0 parent.1 key fork_child child) where
  pub forked : IsFork c parent key (with_class c child)
  forked = record {
    child = child;
    derived = made;
    class = with_class-HasClass c child;
    keyed = with_class-key c child ∙ made.keyed;
  }

  -- The answers, in parts.
  abbrev answers : Answer BuildProject → Answer BuildProject → Option Fault → Time → EnsureAnswers
  answers canonical existing created now = record {
    canonical = canonical;
    existing = existing;
    created = created;
    now = now;
  }

  -- Where the project is not there, by what the create is answered.
  create_build_project-IsEnsured :
      (canonical : Answer BuildProject) (created : Option Fault) (now : Time)
      → IsEnsured c parent key
          (answers canonical (failed absent) created now)
          (create_build_project c child created now)
  unfolding create_build_project
  create_build_project-IsEnsured canonical none now = record {
    asks = ((refl, forked), ((refl, refl, made.keyed, refl), tt));
    creates = λ e. (tt, tt);
    stamps = λ e n. inr (inl tt);
    succeeds = λ e. inr (refl, inl refl);
    fails = λ f e. absurd cc;
  }
  create_build_project-IsEnsured canonical (some already_there) now = record {
    asks = ((refl, forked), tt);
    creates = λ e. tt;
    stamps = λ e n. absurd cc;
    succeeds = λ e. inr (refl, inr refl);
    fails = λ f e. absurd cc;
  }
  create_build_project-IsEnsured canonical (some conflict) now = record {
    asks = ((refl, forked), tt);
    creates = λ e. tt;
    stamps = λ e n. absurd cc;
    succeeds = λ e. absurd cc;
    fails = λ f e. inr (refl, e);
  }
  create_build_project-IsEnsured canonical (some absent) now = record {
    asks = ((refl, forked), tt);
    creates = λ e. tt;
    stamps = λ e n. absurd cc;
    succeeds = λ e. absurd cc;
    fails = λ f e. inr (refl, e);
  }
  create_build_project-IsEnsured canonical (some (other s)) now = record {
    asks = ((refl, forked), tt);
    creates = λ e. tt;
    stamps = λ e n. absurd cc;
    succeeds = λ e. absurd cc;
    fails = λ f e. inr (refl, e);
  }

  -- A read that fails in another way.
  unread-IsEnsured :
      (canonical : Answer BuildProject) (x : Fault) (created : Option Fault) (now : Time)
      → x ≢ absent
      → IsEnsured c parent key
          (answers canonical (failed x) created now)
          (record { log = []; error = some x })
  unread-IsEnsured canonical x created now known = record {
    asks = tt;
    creates = λ e. absurd (known cc);
    stamps = λ e n. absurd (known cc);
    succeeds = λ e. absurd cc;
    fails = λ f e. inl cc;
  }

  ensure_build_project-IsEnsured :
      (canonical existing : Answer BuildProject) (created : Option Fault) (now : Time)
      → IsEnsured c parent key
          (answers canonical existing created now)
          (ensure_build_project c child (answers canonical existing created now))
  unfolding ensure_build_project
  ensure_build_project-IsEnsured canonical (got bp) created now = record {
    asks = tt;
    creates = λ e. absurd cc;
    stamps = λ e n. absurd cc;
    succeeds = λ e. inl (bp, refl);
    fails = λ f e. absurd cc;
  }
  ensure_build_project-IsEnsured canonical (failed absent) created now =
      create_build_project-IsEnsured canonical created now
  ensure_build_project-IsEnsured canonical (failed conflict) created now =
      unread-IsEnsured canonical conflict created now (λ e. cc)
  ensure_build_project-IsEnsured canonical (failed already_there) created now =
      unread-IsEnsured canonical already_there created now (λ e. cc)
  ensure_build_project-IsEnsured canonical (failed (other s)) created now =
      unread-IsEnsured canonical (other s) created now (λ e. cc)

-- For a request that is not trusted, all that Ensure asks of the API is a create of the fork's
-- project, and a stamp of that project if the create went through, and both only if a read says
-- that the project is not there. What is created has the fork's key and is a child of the live
-- canonical project and its last snapshot, or of the request without a seed if the canonical
-- project is not read, with the operator's storage class if the child sets none and its own
-- otherwise. If the project is not there, exactly one create comes first and only stamps follow,
-- at least one if the create went through. Ensure has no error only if the project is there: it
-- was read, created, or created meanwhile by another request; its error is that of the read or
-- that of the create.
pub ensure-IsEnsured :
    (c : Config) (spec : BuildProjectSpec) (a : EnsureAnswers)
    → IsEnsured c (parent_of spec a.canonical) (fork_key spec.key) a (ensure c spec true a)
unfolding ensure
ensure-IsEnsured c spec a =
    ensure_build_project-IsEnsured c (parent_of spec a.canonical) (fork_key spec.key)
      (fork_spec spec a.canonical) (fork_spec-IsChild spec a.canonical) a.canonical a.existing
      a.created a.now
