-- ===== src/Provisioner/Local/Cadence.antt =====
-- `S3CacheDecision` of internal/provisioner/local/local.go beside that of internal/provisioner/k8s/k8s.go.
use buildkit_operator.Base.{
  ◌<◌, ◌≡◌, refl, ap, sym, ◌∙◌, ◌⊎◌, inl, inr, Bool, true, false, leb_ℤ, pos, Option, none, some,
  [], ◌∷◌, Bytes, bytes_eq, bytes_eq_refl, Time, Duration, lookup, lookup-insert, arith, Bool-cases,
}
use buildkit_operator.Api.Types.{BuildProject, s3_cache_always, s3_cache_never, s3_cache_cadence}
use buildkit_operator.Api.Defaults.{apply_defaults}
use buildkit_operator.Provisioner.Retry.{got, Tried, retried}
use buildkit_operator.Provisioner.Kube.{
  Update, GrantAttempt, is_within, stamp_grant, grant_attempt, Decision, decide_cadence,
  s3_cache_decision,
}
use buildkit_operator.Provisioner.Local.{
  ProjectState, Projects, exported_within, cadence_local, s3_decision_local,
}

-- The three policies of the CRD.
abbrev pub IsPolicy : Bytes → Type 0
IsPolicy p = (p ≡ s3_cache_never) ⊎ (p ≡ s3_cache_always) ⊎ (p ≡ s3_cache_cadence)

-- The stamp of the last grant in a status, and in a state, where the zero time is none.
abbrev pub SameStamp : Option Time → Time → Type 0
SameStamp none t = t ≡ 0
SameStamp (some a) t = (a ≡ t) × (0 < t)

is_within-exported_within :
    (interval : Duration) (last : Option Time) (t now : Time)
    → SameStamp last t
    → is_within interval last now ≡ exported_within interval t now
unfolding is_within
is_within-exported_within interval none t now same = rw same refl
is_within-exported_within interval (some a) t now (same, stamped) = rw same (ground arith)

-- The same decision, and the same stamp behind it: both leave it, or both set it.
pub record Agrees (key : Bytes) (st : ProjectState) (bp : BuildProject) (stamp : Time)
    (m : Projects) (l : Projects × Bool × Bool) (k : Decision) : Type 0 where
  pub imports : l.1 ≡ k.imports
  pub exports : l.2 ≡ k.exports
  pub stamps :
      ((k.log ≡ []) × (l.0 ≡ m))
      ⊎ ((k.log
            ≡ record {
              status = record bp.status { last_cache_export_grant = some stamp };
              refused = none;
            }
              ∷ [])
          × (lookup key l.0 ≡ some (record st { last_cache_export = stamp })))

-- The first attempt of a grant, which is accepted.
abbrev pub only_attempt : BuildProject → Time → Time → GrantAttempt
only_attempt bp since stamp = record {
  current = got bp;
  since_now = since;
  now = stamp;
  updated = none;
}

module _ (key : Bytes) (st : ProjectState) (bp : BuildProject) (interval : Duration)
    (grant_export : Bool) (since stamp : Time) (m : Projects) where
  abbrev attempt : GrantAttempt
  attempt = only_attempt bp since stamp

  -- The only attempt, inside the interval and outside it.
  attempted_early :
      (apply_defaults bp.spec).s3_cache_policy ≡ s3_cache_cadence
      → is_within interval bp.status.last_cache_export_grant since ≡ true
      → retried (grant_attempt interval) false attempt []
        ≡ record { state = false; log = []; error = none }
  unfolding retried grant_attempt bytes_eq
  attempted_early cadence early = rw (cadence, early) refl

  attempted_due :
      (apply_defaults bp.spec).s3_cache_policy ≡ s3_cache_cadence
      → is_within interval bp.status.last_cache_export_grant since ≡ false
      → retried (grant_attempt interval) false attempt [] ≡ record {
        state = true;
        log =
            record {
              status = record bp.status { last_cache_export_grant = some stamp };
              refused = none;
            }
            ∷ [];
        error = none;
      }
  unfolding retried grant_attempt stamp_grant bytes_eq
  attempted_due cadence due = rw (cadence, due) refl

  decide_cadence-attempted :
      leb_ℤ interval (pos 0) ≡ false
      → (t : Tried Bool Update) → retried (grant_attempt interval) false attempt [] ≡ t
      → t.error ≡ none
      → decide_cadence interval true attempt []
        ≡ record { imports = true; exports = t.state; log = t.log }
  unfolding decide_cadence
  decide_cadence-attempted windowed t e fine =
      let answer : Tried Bool Update → Decision = λ x. elim x.error [
        | some f ↦ record { imports = true; exports = false; log = x.log }
        | none ↦ record { imports = true; exports = x.state; log = x.log }
      ] in
      rw windowed (ap answer e ∙ rw fine refl)

  cadence_local-Agrees_windowed :
      lookup key m ≡ some st
      → SameStamp bp.status.last_cache_export_grant st.last_cache_export
      → (apply_defaults bp.spec).s3_cache_policy ≡ s3_cache_cadence
      → leb_ℤ interval (pos 0) ≡ false
      → Agrees key st bp stamp m
          (cadence_local key interval true since stamp (some st) m)
          (decide_cadence interval true attempt [])
  unfolding cadence_local
  cadence_local-Agrees_windowed there same cadence windowed =
      let within =
        is_within-exported_within interval bp.status.last_cache_export_grant st.last_cache_export
          since same in
      elim (Bool-cases (exported_within interval st.last_cache_export since)) [
        | inl early ↦
            rw
              (
                windowed,
                early,
                decide_cadence-attempted windowed _ (attempted_early cadence (within ∙ early)) refl,
              )
              (record { imports = refl; exports = refl; stamps = inl (refl, refl) })
        | inr due ↦
            rw
              (
                windowed,
                due,
                decide_cadence-attempted windowed _ (attempted_due cadence (within ∙ due)) refl,
              )
              (record {
                imports = refl;
                exports = refl;
                stamps = inr (refl, lookup-insert key key _ m ∙ rw (bytes_eq_refl key));
              })
      ]

  cadence_local-Agrees :
      lookup key m ≡ some st
      → SameStamp bp.status.last_cache_export_grant st.last_cache_export
      → (apply_defaults bp.spec).s3_cache_policy ≡ s3_cache_cadence
      → Agrees key st bp stamp m
          (cadence_local key interval grant_export since stamp (some st) m)
          (decide_cadence interval grant_export attempt [])
  unfolding cadence_local decide_cadence
  cadence_local-Agrees there same cadence = elim (Bool-cases grant_export) [
    | inr probe ↦ rw probe (record { imports = refl; exports = refl; stamps = inl (refl, refl) })
    | inl asks ↦ rw asks (elim (Bool-cases (leb_ℤ interval (pos 0))) [
      | inl open_window ↦
          rw open_window (record { imports = refl; exports = refl; stamps = inl (refl, refl) })
      | inr windowed ↦ cadence_local-Agrees_windowed there same cadence windowed
    ])
  ]

  -- For a project that both backends know with the same spec and the same stamp of the last grant,
  -- and a policy of the CRD, S3CacheDecision of the single host and that of Kubernetes (whose
  -- first attempt is accepted) decide the same on import and export, and either both leave the
  -- stamp or both set it to the time of the grant.
  pub s3_decision_local-Agrees :
      lookup key m ≡ some st
      → bp.spec ≡ st.spec
      → SameStamp bp.status.last_cache_export_grant st.last_cache_export
      → IsPolicy (apply_defaults bp.spec).s3_cache_policy
      → Agrees key st bp stamp m
          (s3_decision_local key interval grant_export since stamp m)
          (s3_cache_decision (got bp) interval grant_export attempt [])
  unfolding s3_decision_local s3_cache_decision bytes_eq
  s3_decision_local-Agrees there same_spec same policy =
      let local_policy = sym (ap apply_defaults same_spec) in
      rw (there, local_policy)
        (elim policy [
          | inl never ↦
              rw never (record { imports = refl; exports = refl; stamps = inl (refl, refl) })
          | inr (inl always) ↦
              rw always (record { imports = refl; exports = refl; stamps = inl (refl, refl) })
          | inr (inr cadence) ↦ rw cadence (cadence_local-Agrees there same cadence)
        ])
