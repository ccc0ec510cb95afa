-- ===== src/Provisioner/Contract/Host.antt =====
-- internal/provisioner/local/local.go keeps the contract: the projects in memory are the state.
use buildkit_operator.Base.{
  ◌≡◌, refl, ap, sym, ◌∙◌, inl, inr, Bool, true, false, if◌then◌else◌, Option, none, some, List, [],
  is_empty, Bytes, bytes_eq, bytes_eq_iff, Time, lookup, insert, lookup-insert, Bool-cases,
  Option-cases,
}
use buildkit_operator.Api.Types.{InflightBuild, BuildProjectSpec}
use buildkit_operator.Api.Inflight.{start_inflight, end_inflight}
use buildkit_operator.Api.Inflight.Release.{end_inflight_missed}
use buildkit_operator.Provisioner.Local.{
  ProjectState, Projects, bare_spec, new_state, state_for, register, start_local, end_local,
  touch_local,
}
use buildkit_operator.Provisioner.Local.Instances.{
  HostConfig, HostAnswers, ensure_instance, ensure_local,
}
use buildkit_operator.Provisioner.Contract.{Backend}

-- The builds of a key that has a state, and none for another.
abbrev builds_of : Option ProjectState → List InflightBuild
builds_of none = []
builds_of (some st) = st.inflight

abbrev host_builds : Bytes → Projects → List InflightBuild
host_builds k m = builds_of (lookup k m)

-- A state that is written under a key gives the key its builds.
builds-insert :
    (key k : Bytes) (st : ProjectState) (m : Projects)
    → host_builds k (insert key st m) ≡ (if bytes_eq key k then st.inflight else host_builds k m)
builds-insert key k st m =
    rw (lookup-insert key k st m)
      (elim (Bool-cases (bytes_eq key k)) [ inl same ↦ rw same | inr apart ↦ rw apart ])

-- A state with the builds that were there changes nothing.
builds-insert_same :
    (key k : Bytes) (st : ProjectState) (m : Projects)
    → st.inflight ≡ host_builds key m
    → host_builds k (insert key st m) ≡ host_builds k m
builds-insert_same key k st m same =
    builds-insert key k st m ∙ (elim (Bool-cases (bytes_eq key k)) [
      | inl e ↦ rw e (same ∙ ap (λ (j : Bytes). host_builds j m) ((bytes_eq_iff key k).0 e))
      | inr apart ↦ rw apart
    ])

state_for-builds :
    (key k : Bytes) (m : Projects)
    → ((state_for key m).0.inflight ≡ host_builds key m)
      × (host_builds k (state_for key m).1 ≡ host_builds k m)
unfolding state_for
state_for-builds key k m = elim (Option-cases (lookup key m)) [
  | inl fresh ↦
      rw (fresh, state_for)
        (refl, builds-insert_same key k (new_state (bare_spec key) false false) m (rw fresh))
  | inr (st, there) ↦ rw (there, state_for) (refl, refl)
]

register-builds :
    (spec : BuildProjectSpec) (vm : Bool) (m : Projects) (k : Bytes)
    → host_builds k (register spec vm m) ≡ host_builds k m
unfolding register
register-builds spec vm m k = elim (Option-cases (lookup spec.key m)) [
  | inl fresh ↦ rw (fresh, register) (builds-insert_same spec.key k _ m (rw fresh))
  | inr (st, there) ↦
      rw (there, register)
        (elim (Bool-cases (is_empty st.spec.repo)) [
          | inl bare ↦ rw bare (builds-insert_same spec.key k _ m (rw there))
          | inr known ↦ rw known
        ])
]

-- A write behind `stateFor`.
builds-insert_state :
    (key k : Bytes) (st : ProjectState) (m : Projects)
    → host_builds k (insert key st (state_for key m).1)
      ≡ (if bytes_eq key k then st.inflight else host_builds k m)
builds-insert_state key k st m =
    builds-insert key k st (state_for key m).1
    ∙ ap (λ (rest : List InflightBuild). if bytes_eq key k then st.inflight else rest)
        (state_for-builds key k m).1

pub ensure_local-builds :
    (c : HostConfig) (spec : BuildProjectSpec) (untrusted : Bool) (a : HostAnswers) (m : Projects)
    (k : Bytes)
    → host_builds k (ensure_local c spec untrusted a m).projects ≡ host_builds k m
unfolding ensure_local ensure_instance
ensure_local-builds c spec false a m k = register-builds spec false m k
ensure_local-builds c spec true a m k = elim (Bool-cases (is_empty c.vm_image)) [
  | inl bare ↦ rw bare
  | inr has_image ↦ rw has_image (register-builds _ true m k)
]

module _ (sha256 : Bytes → Bytes) (now : Time) where
  pub start_local-builds :
      (key id : Bytes) (m : Projects) (k : Bytes)
      → host_builds k (start_local sha256 key id now now m) ≡ (
          if bytes_eq key k
          then start_inflight sha256 (host_builds key m) id now
          else host_builds k m)
  unfolding start_local
  start_local-builds key id m k =
      builds-insert_state key k _ m
      ∙ ap
          (λ (bs : List InflightBuild).
            if bytes_eq key k then start_inflight sha256 bs id now else host_builds k m)
          (state_for-builds key k m).0

  -- What `EndInflight` makes of the builds of the key.
  pub end_local-builds :
      (key id : Bytes) (m : Projects) (k : Bytes)
      → is_empty id ≡ false
      → (host_builds k (end_local sha256 key id now m).0 ≡ (
          if bytes_eq key k
          then (end_inflight sha256 (host_builds key m) id).0
          else host_builds k m))
        × ((end_local sha256 key id now m).1 ≡ (end_inflight sha256 (host_builds key m) id).1)
  unfolding end_local
  end_local-builds key id m k named =
      let (at, others) = state_for-builds key k m in
      let r = end_inflight sha256 (state_for key m).0.inflight id in
      let reports = ap (λ (bs : List InflightBuild). (end_inflight sha256 bs id).1) at in
      let left = ap (λ (bs : List InflightBuild). (end_inflight sha256 bs id).0) at in
      elim (Bool-cases r.1) [
        | inl found ↦
            rw (found, end_local)
              (
                builds-insert_state key k _ m
                    ∙ ap
                        (λ (bs : List InflightBuild).
                          if bytes_eq key k then bs else host_builds k m)
                        left,
                sym found ∙ reports,
              )
        | inr lost ↦
            rw (lost, end_local)
              (
                others
                    ∙ sym (elim (Bool-cases (bytes_eq key k)) [
                      | inl same ↦ rw same (
                          end_inflight_missed sha256 (host_builds key m) id named
                            (sym reports ∙ lost)
                          ∙ ap (λ (j : Bytes). host_builds j m) ((bytes_eq_iff key k).0 same))
                      | inr apart ↦ rw apart
                    ]),
                sym lost ∙ reports,
              )
      ]

  -- The host as a backend: every key is there, for a state is made when it is asked for.
  abbrev pub host_backend : HostConfig → (Bytes → HostAnswers) → Backend sha256 now
  host_backend c answers = record {
    State = Projects;
    builds = host_builds;
    IsThere = λ key m. Unit {0};
    prepare = λ spec untrusted m. (ensure_local c spec untrusted (answers spec.key) m).projects;
    begin = λ key id m. start_local sha256 key id now now m;
    release = λ key id m. end_local sha256 key id now m;
    stamp = λ key m. touch_local key now m;
    prepare_there = λ spec untrusted m. tt;
    prepare_builds =
        λ spec untrusted m k. ensure_local-builds c spec untrusted (answers spec.key) m k;
    begin_builds = λ key id m k there. start_local-builds key id m k;
    release_builds = λ key id m k named small. (end_local-builds key id m k named).0;
    release_reports = λ key id m named small. (end_local-builds key id m key named).1;
  }
