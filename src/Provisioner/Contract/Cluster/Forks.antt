-- ===== src/Provisioner/Contract/Cluster/Forks.antt =====
-- internal/provisioner/k8s/k8s.go: what `Ensure` for a request that is not trusted makes of the objects.
use buildkit_operator.Base.{
  ◌≡◌, refl, ap, sym, subst, ◌∙◌, inl, inr, true, false, if◌then◌else◌, none, some, Bytes, bytes_eq,
  bytes_eq_refl, Time, Duration, lookup, insert, lookup-insert, Bool-cases, Option-cases,
}
use buildkit_operator.Router.{fork_key}
use buildkit_operator.Api.Types.{BuildProject, BuildProjectSpec}
use buildkit_operator.Provisioner.Kube.Projects.{Config, fork_spec, with_class}
use buildkit_operator.Provisioner.Kube.Isolation.{IsFork, parent_of, fork_spec-IsChild, forked}
use buildkit_operator.Provisioner.Contract.Cluster.{Objects, read_of, no_status, ensure_on}
use buildkit_operator.Provisioner.Contract.Cluster.Creates.{
  asked, asked-key, fresh, fresh_stamped, made, ensure_on-there, ensure_on-made,
}

module _ (now : Time) (c : Config) (max_build : Duration) (sha256 : Bytes → Bytes) where
  -- What a request that is not trusted makes of the objects: a fork's project where there is none, and
  -- nothing else.
  pub record IsForked (spec : BuildProjectSpec) (s t : Objects) : Type 0 where
    pub others : (k : Bytes) → bytes_eq (fork_key spec.key) k ≡ false → lookup k t ≡ lookup k s
    pub kept : (bp : BuildProject) → lookup (fork_key spec.key) s ≡ some bp → t ≡ s
    pub makes :
        lookup (fork_key spec.key) s ≡ none
        → (bp : BuildProject) × (lookup (fork_key spec.key) t ≡ some bp)
          × IsFork c (parent_of spec (read_of (lookup spec.key s))) (fork_key spec.key) bp.spec
          × (bp.status ≡ record no_status { last_build_time = some now })
    pub again : ensure_on sha256 now c max_build spec true t ≡ t

  lookup-made :
      (spec : BuildProjectSpec) (s : Objects) (k : Bytes)
      → lookup k (made sha256 now c max_build spec s) ≡ (
          if bytes_eq spec.key k
          then some (fresh_stamped sha256 now c max_build spec)
          else lookup k s)
  lookup-made spec s k =
      let once = insert spec.key (fresh sha256 now c max_build spec) s in
      lookup-insert spec.key k (fresh_stamped sha256 now c max_build spec) once
      ∙ (elim (Bool-cases (bytes_eq spec.key k)) [
        | inl same ↦ rw same
        | inr apart ↦
            rw apart (lookup-insert spec.key k (fresh sha256 now c max_build spec) s ∙ rw apart)
      ])

  -- The spec that is asked for.
  abbrev wanted : BuildProjectSpec → Objects → BuildProjectSpec
  wanted spec s = with_class c (asked sha256 now c max_build spec true s)

  lookup-wanted :
      (spec : BuildProjectSpec) (s : Objects) (k : Bytes)
      → lookup k (made sha256 now c max_build (wanted spec s) s) ≡ (
          if bytes_eq (fork_key spec.key) k
          then some (fresh_stamped sha256 now c max_build (wanted spec s))
          else lookup k s)
  lookup-wanted spec s k =
      lookup-made (wanted spec s) s k
      ∙ ap
          (λ (key : Bytes).
            if bytes_eq key k
            then some (fresh_stamped sha256 now c max_build (wanted spec s))
            else lookup k s)
          (asked-key sha256 now c max_build spec true s)

  wanted-IsFork :
      (spec : BuildProjectSpec) (s : Objects)
      → IsFork c (parent_of spec (read_of (lookup spec.key s))) (fork_key spec.key) (wanted spec s)
  wanted-IsFork spec s =
      let canonical = read_of (lookup spec.key s) in
      forked c (parent_of spec canonical) (fork_key spec.key) (fork_spec spec canonical)
        (fork_spec-IsChild spec canonical)

  -- From objects among which the fork's project is not.
  made-IsForked :
      (spec : BuildProjectSpec) (s : Objects)
      → lookup (fork_key spec.key) s ≡ none
      → IsForked spec s (made sha256 now c max_build (wanted spec s) s)
  made-IsForked spec s gone =
      let key = fork_key spec.key in
      let bp = fresh_stamped sha256 now c max_build (wanted spec s) in
      let here : lookup key (made sha256 now c max_build (wanted spec s) s) ≡ some bp =
        lookup-wanted spec s key ∙ rw (bytes_eq_refl key) refl in
      record {
        others = λ k apart. lookup-wanted spec s k ∙ rw apart refl;
        kept = λ x there. absurd cc;
        makes = λ e. (bp, here, wanted-IsFork spec s, refl);
        again = ensure_on-there sha256 now c max_build spec true _ bp here;
      }

  -- Over an API that accepts each write, Ensure for a request that is not trusted changes no
  -- project of another key, leaves all as it is if the fork's project is there, and otherwise
  -- makes it: under the fork's key, a child of the canonical project among the objects and its
  -- last snapshot or, without one, of the request, with the operator's storage class if the child
  -- sets none and its own otherwise, with no builds and stamped as used now. A second such request
  -- changes nothing.
  pub ensure_on-IsForked :
      (spec : BuildProjectSpec) (s : Objects)
      → IsForked spec s (ensure_on sha256 now c max_build spec true s)
  ensure_on-IsForked spec s = elim (Option-cases (lookup (fork_key spec.key) s)) [
    | inl gone ↦
        subst (λ (t : Objects). IsForked spec s t)
          (sym (ensure_on-made sha256 now c max_build spec true s gone)) (made-IsForked spec s gone)
    | inr (bp, there) ↦
        let same = ensure_on-there sha256 now c max_build spec true s bp there in
        subst (λ (t : Objects). IsForked spec s t) (sym same)
          (record {
            others = λ k apart. refl;
            kept = λ x found. refl;
            makes = λ e. absurd cc;
            again = same;
          })
  ]
