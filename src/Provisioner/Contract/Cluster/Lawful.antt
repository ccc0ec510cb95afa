-- ===== src/Provisioner/Contract/Cluster/Lawful.antt =====
-- internal/provisioner/k8s/k8s.go keeps the contract over an API that accepts each write at the first attempt.
use buildkit_operator.Base.{
  ◌≤◌, ◌≡◌, refl, ap, sym, subst, ◌∙◌, inl, inr, Bool, true, false, if◌then◌else◌, Option, none,
  some, List, [], ◌∷◌, length, is_empty, Bytes, bytes_eq, bytes_eq_iff, Time, Duration, lookup,
  insert, lookup-insert, Bool-cases, Option-cases,
}
use buildkit_operator.Router.{is_fork_key}
use buildkit_operator.Api.Types.{InflightBuild, BuildProject, BuildProjectStatus}
use buildkit_operator.Api.Inflight.{inflight_cap, start_inflight, end_inflight, end_inflight_at}
use buildkit_operator.Api.Inflight.Release.{end_inflight_missed}
use buildkit_operator.Provisioner.Retry.{got, Tried, retried}
use buildkit_operator.Provisioner.Kube.{
  Update, Attempt, Mutation, write_back, touch_attempt, touch_status, live_entries, start_build,
  end_build, start_inflight_build, end_inflight_build,
}
use buildkit_operator.Provisioner.Kube.Projects.{Config}
use buildkit_operator.Provisioner.Kube.Builds.{stamped}
use buildkit_operator.Provisioner.Contract.Cluster.{
  Objects, put_status, stored, running_of, running, begin_on, release_on,
}
use buildkit_operator.Provisioner.Contract.Cluster.Entries.{
  start_build-entries, end_build-entries, end_build-missed,
}

module _ (sha256 : Bytes → Bytes) (now : Time) (c : Config) (max_build : Duration) where
  abbrev pub runs : Bytes → Objects → List InflightBuild
  runs = running sha256 now c max_build

  running-insert :
      (key k : Bytes) (bp : BuildProject) (s : Objects)
      → runs k (insert key bp s)
        ≡ (if bytes_eq key k then (live_entries max_build bp.status now).1 else runs k s)
  running-insert key k bp s =
      rw (lookup-insert key k bp s)
        (elim (Bool-cases (bytes_eq key k)) [ inl same ↦ rw same | inr apart ↦ rw apart ])

  pub running-insert_same :
      (key k : Bytes) (bp : BuildProject) (s : Objects)
      → (live_entries max_build bp.status now).1 ≡ runs key s
      → runs k (insert key bp s) ≡ runs k s
  running-insert_same key k bp s same =
      running-insert key k bp s ∙ (elim (Bool-cases (bytes_eq key k)) [
        | inl e ↦ rw e (same ∙ ap (λ (j : Bytes). runs j s) ((bytes_eq_iff key k).0 e))
        | inr apart ↦ rw apart
      ])

  -- The object of the key with a status.
  abbrev at_status : BuildProject → BuildProjectStatus → BuildProject
  at_status bp st = record bp { status = st }

  -- What the only attempt leaves, and the report of it.
  abbrev outcome : Tried Bool Update → Bool × List Update
  outcome t = elim t.error [ some f ↦ (false, t.log) | none ↦ (t.state, t.log) ]

  reported :
      (mutate : Mutation) (bp : BuildProject) (r : BuildProjectStatus × Bool)
      → mutate bp.status now ≡ r
      → let a : Attempt = record { current = got bp; now = now; updated = none } in
        touch_status mutate a [] ≡ outcome (write_back r a)
  unfolding touch_status touch_attempt retried
  reported mutate bp r e =
      let a : Attempt = record { current = got bp; now = now; updated = none } in
      ap (λ (x : BuildProjectStatus × Bool). outcome (write_back x a)) e

  -- A change that is accepted at once.
  touched :
      (mutate : Mutation) (bp : BuildProject) (r : BuildProjectStatus × Bool)
      → mutate bp.status now ≡ r
      → touch_status mutate (record { current = got bp; now = now; updated = none }) []
        ≡ (r.1, if r.1 then record { status = stamped r.0 now; refused = none } ∷ [] else [])
  unfolding touch_status touch_attempt write_back retried
  touched mutate bp (st, true) e = reported mutate bp (st, true) e
  touched mutate bp (st, false) e = reported mutate bp (st, false) e

  -- What is stored then.
  stored-insert :
      (key : Bytes) (st : BuildProjectStatus) (s : Objects) (bp : BuildProject)
      → lookup key s ≡ some bp
      → stored key (record { status = st; refused = none } ∷ []) s ≡ insert key (at_status bp st) s
  unfolding stored put_status
  stored-insert key st s bp there = rw (there, stored, put_status) refl

  start_build-changes :
      (key id : Bytes) (st : BuildProjectStatus)
      → (start_build sha256 max_build key id st now).1 ≡ true
  unfolding start_build
  start_build-changes key id st = elim (Bool-cases (is_fork_key key)) [
    | inl fork ↦ rw fork
    | inr canonical ↦ rw canonical
  ]

  begin_on-insert :
      (key id : Bytes) (s : Objects) (bp : BuildProject)
      → lookup key s ≡ some bp
      → begin_on sha256 now c max_build key id s
        ≡ insert key
            (at_status bp (stamped (start_build sha256 max_build key id bp.status now).0 now))
            s
  unfolding begin_on start_inflight_build
  begin_on-insert key id s bp there =
      let mutate = start_build sha256 max_build key id in
      let once = touched mutate bp (mutate bp.status now) refl in
      rw (there, once, start_build-changes key id bp.status)
        (stored-insert key (stamped (mutate bp.status now).0 now) s bp there)

  pub begin_on-builds :
      (key id : Bytes) (s : Objects) (k : Bytes)
      → (bp : BuildProject) × (lookup key s ≡ some bp)
      → runs k (begin_on sha256 now c max_build key id s)
        ≡ (if bytes_eq key k then start_inflight sha256 (runs key s) id now else runs k s)
  begin_on-builds key id s k (bp, there) =
      let joined = start_build-entries sha256 max_build now key id bp.status in
      ap (λ (t : Objects). runs k t) (begin_on-insert key id s bp there)
      ∙ running-insert key k _ s
      ∙ rw there (ap (λ (bs : List InflightBuild). if bytes_eq key k then bs else runs k s) joined)

  -- A release that takes place, and one that does not.
  release_on-found :
      (key id : Bytes) (s : Objects) (bp : BuildProject)
      → lookup key s ≡ some bp
      → (end_build sha256 max_build id bp.status now).1 ≡ true
      → release_on sha256 now c max_build key id s ≡ (
        insert key (at_status bp (stamped (end_build sha256 max_build id bp.status now).0 now)) s,
        true,
      )
  unfolding release_on end_inflight_build
  release_on-found key id s bp there found =
      let mutate = end_build sha256 max_build id in
      let once = touched mutate bp (mutate bp.status now) refl in
      let put = stored-insert key (stamped (mutate bp.status now).0 now) s bp there in
      rw (there, once, found) (rw put refl)

  release_on-missed :
      (key id : Bytes) (s : Objects) (bp : BuildProject)
      → lookup key s ≡ some bp
      → (end_build sha256 max_build id bp.status now).1 ≡ false
      → release_on sha256 now c max_build key id s ≡ (s, false)
  unfolding release_on end_inflight_build stored
  release_on-missed key id s bp there lost =
      let mutate = end_build sha256 max_build id in
      let once = touched mutate bp (mutate bp.status now) refl in rw (there, once, lost) refl

  release_on-absent :
      (key id : Bytes) (s : Objects)
      → lookup key s ≡ none
      → release_on sha256 now c max_build key id s ≡ (s, false)
  unfolding release_on end_inflight_build stored touch_status touch_attempt retried
  release_on-absent key id s gone = rw gone refl

  -- What a release makes of the builds, and what it reports.
  abbrev pub Releases : Bytes → Bytes → Objects → Bytes → Objects × Bool → Type 0
  Releases key id s k r =
      (runs k r.0 ≡ (if bytes_eq key k then (end_inflight sha256 (runs key s) id).0 else runs k s))
      × (r.1 ≡ (end_inflight sha256 (runs key s) id).1)

  -- A release that leaves the objects as they are.
  Releases-none :
      (key id : Bytes) (s : Objects) (k : Bytes)
      → is_empty id ≡ false
      → (end_inflight sha256 (runs key s) id).1 ≡ false
      → Releases key id s k (s, false)
  Releases-none key id s k named lost = (
    elim (Bool-cases (bytes_eq key k)) [
      | inl same ↦ rw same (
          sym (
            end_inflight_missed sha256 (runs key s) id named lost
            ∙ ap (λ (j : Bytes). runs j s) ((bytes_eq_iff key k).0 same)))
      | inr apart ↦ rw apart
    ],
    sym lost,
  )

  release_on-Releases_there :
      (key id : Bytes) (s : Objects) (k : Bytes) (bp : BuildProject)
      → lookup key s ≡ some bp
      → is_empty id ≡ false
      → length (runs key s) ≤ inflight_cap
      → Releases key id s k (release_on sha256 now c max_build key id s)
  release_on-Releases_there key id s k bp there named small =
      let bs = (live_entries max_build bp.status now).1 in
      let here = ap (λ (o : Option BuildProject). running_of sha256 now c max_build o) there in
      let small' = subst (λ (l : List InflightBuild). length l ≤ inflight_cap) here small in
      elim (Bool-cases (end_inflight sha256 bs id).1) [
        | inl found ↦
            let (ends, left) =
              end_build-entries sha256 max_build now id bp.status named small' found in
            rw (release_on-found key id s bp there ends) (
              running-insert key k _ s
                  ∙ ap (λ (l : List InflightBuild). if bytes_eq key k then l else runs k s)
                      (left
                        ∙ sym (ap (λ (l : List InflightBuild). (end_inflight sha256 l id).0) here)),
              sym (ap (λ (l : List InflightBuild). (end_inflight sha256 l id).1) here ∙ found),
            )
        | inr lost ↦
            let missed = end_build-missed sha256 max_build now id bp.status named lost in
            rw (release_on-missed key id s bp there missed) (
              Releases-none key id s k named
                (ap (λ (l : List InflightBuild). (end_inflight sha256 l id).1) here ∙ lost))
      ]

  release_on-absent_Releases :
      (key id : Bytes) (s : Objects) (k : Bytes)
      → lookup key s ≡ none
      → is_empty id ≡ false
      → Releases key id s k (release_on sha256 now c max_build key id s)
  unfolding end_inflight end_inflight_at
  release_on-absent_Releases key id s k gone named =
      rw (release_on-absent key id s gone) (Releases-none key id s k named (rw gone refl))

  pub release_on-Releases :
      (key id : Bytes) (s : Objects) (k : Bytes)
      → is_empty id ≡ false
      → length (runs key s) ≤ inflight_cap
      → Releases key id s k (release_on sha256 now c max_build key id s)
  release_on-Releases key id s k named small = elim (Option-cases (lookup key s)) [
    | inl gone ↦ release_on-absent_Releases key id s k gone named
    | inr (bp, there) ↦ release_on-Releases_there key id s k bp there named small
  ]
