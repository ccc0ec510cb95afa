-- ===== src/Provisioner/Contract/Cluster/Creates.antt =====
-- internal/provisioner/k8s/k8s.go: `Ensure` over such an API, and the whole as a backend.
use buildkit_operator.Base.{
  ◌≡◌, refl, ap, sym, ◌∙◌, inl, inr, Bool, true, false, if◌then◌else◌, Option, none, some, [], ◌∷◌,
  is_empty, Bytes, bytes_eq_refl, Time, Duration, lookup, insert, lookup-insert, Bool-cases,
  Option-cases,
}
use buildkit_operator.Api.Types.{BuildProject, BuildProjectSpec}
use buildkit_operator.Api.Derive.{derive_child}
use buildkit_operator.Provisioner.Kube.Projects.{
  Config, create, stamp, create_build_project, ensure_build_project, fork_spec, ensure, with_class,
}
use buildkit_operator.Provisioner.Contract.{Backend}
use buildkit_operator.Provisioner.Contract.Cluster.{
  Objects, read_of, no_status, created, running_of, running, ensured_key, ensure_on, begin_on,
  release_on, stamp_on,
}
use buildkit_operator.Provisioner.Contract.Cluster.Entries.{live_entries-eq}
use buildkit_operator.Provisioner.Contract.Cluster.Lawful.{
  runs, running-insert_same, begin_on-builds, release_on-Releases,
}

with_class-key : (c : Config) (spec : BuildProjectSpec) → (with_class c spec).key ≡ spec.key
with_class-key c spec = elim (Bool-cases (is_empty spec.storage_class)) [
  | inl unset ↦ rw unset
  | inr set ↦ rw set
]

module _ (sha256 : Bytes → Bytes) (now : Time) (c : Config) (max_build : Duration) where
  -- The spec that `Ensure` makes a project of.
  abbrev pub asked : BuildProjectSpec → Bool → Objects → BuildProjectSpec
  asked spec untrusted s = if untrusted then fork_spec spec (read_of (lookup spec.key s)) else spec

  pub asked-key :
      (spec : BuildProjectSpec) (untrusted : Bool) (s : Objects)
      → (with_class c (asked spec untrusted s)).key
        ≡ ensured_key sha256 now c max_build spec untrusted
  unfolding fork_spec derive_child
  asked-key spec false s = with_class-key c spec
  asked-key spec true s =
      with_class-key c (asked spec true s) ∙ (elim (Option-cases (lookup spec.key s)) [
        | inl fresh ↦ rw fresh
        | inr (bp, there) ↦ rw there
      ])

  -- A fresh object, and the same once its status is stamped.
  abbrev pub fresh : BuildProjectSpec → BuildProject
  fresh spec = record { name = spec.key; creation_timestamp = now; spec = spec; status = no_status }

  abbrev pub fresh_stamped : BuildProjectSpec → BuildProject
  fresh_stamped spec = record (fresh spec) {
    status = record no_status { last_build_time = some now };
  }

  abbrev pub made : BuildProjectSpec → Objects → Objects
  made spec s = insert spec.key (fresh_stamped spec) (insert spec.key (fresh spec) s)

  created-made :
      (spec : BuildProjectSpec) (s : Objects)
      → created now (create spec ∷ (stamp spec.key now ∷ [])) s ≡ made spec s
  unfolding created
  created-made spec s =
      rw (created, lookup-insert spec.key spec.key (fresh spec) s, bytes_eq_refl spec.key) refl

  made-builds :
      (spec : BuildProjectSpec) (s : Objects) (k : Bytes)
      → lookup spec.key s ≡ none
      → runs sha256 now c max_build k (made spec s) ≡ runs sha256 now c max_build k s
  made-builds spec s k gone =
      let none_there = ap (λ (o : Option BuildProject). running_of sha256 now c max_build o) gone in
      let idle = live_entries-eq max_build now no_status refl tt ∙ sym none_there in
      let idle' =
        live_entries-eq max_build now (fresh_stamped spec).status refl tt ∙ sym none_there in
      let first =
        λ (j : Bytes). running-insert_same sha256 now c max_build spec.key j (fresh spec) s idle in
      running-insert_same sha256 now c max_build spec.key k (fresh_stamped spec) _
        (idle' ∙ sym (first spec.key))
      ∙ first k

  pub ensure_on-there :
      (spec : BuildProjectSpec) (untrusted : Bool) (s : Objects) (bp : BuildProject)
      → lookup (ensured_key sha256 now c max_build spec untrusted) s ≡ some bp
      → ensure_on sha256 now c max_build spec untrusted s ≡ s
  unfolding ensure_on ensure ensure_build_project created
  ensure_on-there spec untrusted s bp there = rw there refl

  pub ensure_on-made :
      (spec : BuildProjectSpec) (untrusted : Bool) (s : Objects)
      → lookup (ensured_key sha256 now c max_build spec untrusted) s ≡ none
      → ensure_on sha256 now c max_build spec untrusted s
        ≡ made (with_class c (asked spec untrusted s)) s
  unfolding ensure_on ensure ensure_build_project create_build_project
  ensure_on-made spec untrusted s gone =
      let sp = asked spec untrusted s in
      rw gone (
        ap (λ (j : Bytes). created now (create (with_class c sp) ∷ (stamp j now ∷ [])) s)
          (sym (with_class-key c sp))
        ∙ created-made (with_class c sp) s)

  pub prepare_there :
      (spec : BuildProjectSpec) (untrusted : Bool) (s : Objects)
      → (bp : BuildProject) × (lookup
            (ensured_key sha256 now c max_build spec untrusted)
            (ensure_on sha256 now c max_build spec untrusted s)
          ≡ some bp)
  prepare_there spec untrusted s =
      let key = ensured_key sha256 now c max_build spec untrusted in
      elim (Option-cases (lookup key s)) [
        | inl gone ↦
            let sp = with_class c (asked spec untrusted s) in
            (
              fresh_stamped sp,
              ap (λ (t : Objects). lookup key t) (ensure_on-made spec untrusted s gone)
                  ∙ lookup-insert sp.key key _ _
                  ∙ rw (asked-key spec untrusted s, bytes_eq_refl key) refl,
            )
        | inr (bp, there) ↦ (
          bp,
          ap (λ (t : Objects). lookup key t) (ensure_on-there spec untrusted s bp there) ∙ there,
        )
      ]

  pub prepare_builds :
      (spec : BuildProjectSpec) (untrusted : Bool) (s : Objects) (k : Bytes)
      → runs sha256 now c max_build k (ensure_on sha256 now c max_build spec untrusted s)
        ≡ runs sha256 now c max_build k s
  prepare_builds spec untrusted s k =
      elim (Option-cases (lookup (ensured_key sha256 now c max_build spec untrusted) s)) [
        | inl gone ↦
            ap (λ (t : Objects). runs sha256 now c max_build k t)
              (ensure_on-made spec untrusted s gone)
            ∙ made-builds (with_class c (asked spec untrusted s)) s k
                (ap (λ (j : Bytes). lookup j s) (asked-key spec untrusted s) ∙ gone)
        | inr (bp, there) ↦
            ap (λ (t : Objects). runs sha256 now c max_build k t)
              (ensure_on-there spec untrusted s bp there)
      ]

  -- The objects of the API as a backend: a project is there once it was created.
  abbrev pub cluster_backend : Backend sha256 now
  cluster_backend = record {
    State = Objects;
    builds = running sha256 now c max_build;
    IsThere = λ key s. (bp : BuildProject) × (lookup key s ≡ some bp);
    prepare = ensure_on sha256 now c max_build;
    begin = begin_on sha256 now c max_build;
    release = release_on sha256 now c max_build;
    stamp = stamp_on sha256 now c max_build;
    prepare_there = prepare_there;
    prepare_builds = prepare_builds;
    begin_builds = begin_on-builds sha256 now c max_build;
    release_builds = λ key id s k named small.
        (release_on-Releases sha256 now c max_build key id s k named small).0;
    release_reports = λ key id s named small.
        (release_on-Releases sha256 now c max_build key id s key named small).1;
  }
