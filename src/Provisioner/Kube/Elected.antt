-- ===== src/Provisioner/Kube/Elected.antt =====
-- `S3CacheDecision` of internal/provisioner/k8s/k8s.go: what stands behind an answer that lets a build export.
use buildkit_operator.Base.{
  ◌≡◌, refl, ap, ◌∙◌, sym, ◌⊎◌, inl, inr, Bool, true, false, leb_ℤ, pos, Option, none, some, List,
  [], ◌∷◌, ◌++◌, append_assoc, Time, Duration, bytes_eq, bytes_eq_iff, arith, Bool-cases,
  Option-cases,
}
use buildkit_operator.Api.Types.{BuildProject, s3_cache_always, s3_cache_never, s3_cache_cadence}
use buildkit_operator.Api.Defaults.{apply_defaults}
use buildkit_operator.Provisioner.Retry.{Fault, Answer, got, failed, Tried, retried}
use buildkit_operator.Provisioner.Kube.{
  Update, GrantAttempt, is_within, stamp_grant, grant_attempt, Decision, decided, decide_cadence,
  s3_cache_decision,
}
use buildkit_operator.Provisioner.Kube.Grants.{IsGrant}

-- The last of the writes is an accepted grant.
pub record IsElected (interval : Duration) (log : List Update) : Type 0 where
  pub attempt : GrantAttempt
  pub write : Update
  pub earlier : List Update
  pub last : log ≡ earlier ++ (write ∷ [])
  pub grant : IsGrant interval attempt write

-- A fresh read shows the policy that always exports.
abbrev pub IsFlipped : Type 0
IsFlipped = (bp : BuildProject) × ((apply_defaults bp.spec).s3_cache_policy ≡ s3_cache_always)

abbrev Behind : Duration → Tried Bool Update → Type 0
Behind interval t = IsElected interval t.log ⊎ IsFlipped

stamp_grant-Behind :
    (interval : Duration) (already : Bool) (bp : BuildProject) (since_now now : Time)
    (updated : Option Fault)
    → bytes_eq (apply_defaults bp.spec).s3_cache_policy s3_cache_cadence ≡ true
    → is_within interval bp.status.last_cache_export_grant since_now ≡ false
    → let a : GrantAttempt = record {
      current = got bp;
      since_now = since_now;
      now = now;
      updated = updated;
    } in
      (stamp_grant bp.status already a).error ≡ none
      → Behind interval (stamp_grant bp.status already a)
unfolding stamp_grant
stamp_grant-Behind interval already bp since_now now (some f) cadence due fine = cc
stamp_grant-Behind interval already bp since_now now none cadence due fine = inl (record {
  attempt = record { current = got bp; since_now = since_now; now = now; updated = none };
  write = record {
    status = record bp.status { last_cache_export_grant = some now };
    refused = none;
  };
  earlier = [];
  last = refl;
  grant = record {
    read = bp;
    answered = refl;
    cadence = (bytes_eq_iff _ _).0 cadence;
    due = due;
    stamped = refl;
    accepted = refl;
  };
})

grant_attempt-Behind :
    (interval : Duration) (already : Bool) (current : Answer BuildProject) (since_now now : Time)
    (updated : Option Fault)
    → let a : GrantAttempt = record {
      current = current;
      since_now = since_now;
      now = now;
      updated = updated;
    } in
      (grant_attempt interval already a).error ≡ none
      → (grant_attempt interval already a).state ≡ true
      → Behind interval (grant_attempt interval already a)
unfolding grant_attempt
grant_attempt-Behind interval already (failed f) since_now now updated fine yields = cc
grant_attempt-Behind interval already (got bp) since_now now updated fine yields =
    let policy = (apply_defaults bp.spec).s3_cache_policy in
    elim (Bool-cases (bytes_eq policy s3_cache_cadence)) [
      | inl cadence ↦
          elim (Bool-cases (is_within interval bp.status.last_cache_export_grant since_now)) [
            | inl early ↦ absurd (ground arith)
            | inr due ↦
                rw (cadence, due)
                  (stamp_grant-Behind interval already bp since_now now updated cadence due
                    (ground arith))
          ]
      | inr another ↦ rw another (inr (bp, (bytes_eq_iff _ _).0 (ground arith)))
    ]

-- Writes of earlier attempts may stand in front.
Behind-after :
    (interval : Duration) (before : List Update) (t : Tried Bool Update)
    → Behind interval t
    → Behind interval (record { state = t.state; log = before ++ t.log; error = t.error })
Behind-after interval before t (inr flipped) = inr flipped
Behind-after interval before t (inl e) = inl (record {
  attempt = e.attempt;
  write = e.write;
  earlier = before ++ e.earlier;
  last = ap (λ (l : List Update). before ++ l) e.last ∙ sym (append_assoc before e.earlier _);
  grant = e.grant;
})

retried-Behind :
    (interval : Duration) (already : Bool) (a : GrantAttempt) (as' : List GrantAttempt)
    → (retried (grant_attempt interval) already a as').error ≡ none
    → (retried (grant_attempt interval) already a as').state ≡ true
    → Behind interval (retried (grant_attempt interval) already a as')
unfolding retried
retried-Behind interval already a [] fine yields =
    grant_attempt-Behind interval already a.current a.since_now a.now a.updated fine yields
retried-Behind interval already a (b ∷ bs) fine yields =
    let t = grant_attempt interval already a in
    Behind-after interval t.log (retried (grant_attempt interval) t.state b bs)
      (retried-Behind interval t.state b bs fine yields)

-- What lets a build export under the cadence policy.
abbrev pub MayExport : Duration → Bool → Decision → Type 0
MayExport interval grant_export d =
    (d.exports ≡ false)
    ⊎ ((grant_export ≡ true)
        × ((leb_ℤ interval (pos 0) ≡ true) ⊎ IsElected interval d.log ⊎ IsFlipped))

decide_cadence-MayExport :
    (interval : Duration) (grant_export : Bool) (a : GrantAttempt) (as' : List GrantAttempt)
    → let d = decide_cadence interval grant_export a as' in
      (d.imports ≡ true) × MayExport interval grant_export d
unfolding decide_cadence
decide_cadence-MayExport interval false a as' = (refl, inl refl)
decide_cadence-MayExport interval true a as' =
    let t = retried (grant_attempt interval) false a as' in
    elim (Bool-cases (leb_ℤ interval (pos 0))) [
      | inl open_window ↦ rw open_window (refl, inr (refl, inl refl))
      | inr windowed ↦ rw windowed (elim (Option-cases t.error) [
        | inr (f, late) ↦ rw late (refl, inl refl)
        | inl fine ↦ rw fine (elim (Bool-cases t.state) [
          | inr none_left ↦ rw none_left (refl, inl refl)
          | inl yields ↦ elim (retried-Behind interval false a as' fine yields) [
            | inl elected ↦ (refl, inr (refl, inr (inl elected)))
            | inr flipped ↦ (refl, inr (refl, inr (inr flipped)))
          ]
        ])
      ])
    ]

-- The answer by the policy of the project that is read.
abbrev pub IsDecided : Duration → Bool → Answer BuildProject → Decision → Type 0
IsDecided interval grant_export (failed f) d = d ≡ decided true true
IsDecided interval grant_export (got bp) d =
    let policy = (apply_defaults bp.spec).s3_cache_policy in
    ((policy ≡ s3_cache_never) × (d ≡ decided false false))
    ⊎ ((policy ≡ s3_cache_always) × (d ≡ decided true true))
    ⊎ ((bytes_eq policy s3_cache_never ≡ false)
        × (bytes_eq policy s3_cache_always ≡ false)
        × (d.imports ≡ true)
        × MayExport interval grant_export d)

-- S3CacheDecision allows both import and export if the project is not read or its policy is
-- always, and neither if it is never; under any other policy it allows the import, and the export
-- only if the call may grant, and the interval is not positive, or its last write is an accepted
-- grant that was due, or a fresh read shows the policy always.
pub s3_cache_decision-IsDecided :
    (first : Answer BuildProject) (interval : Duration) (grant_export : Bool) (a : GrantAttempt)
    (as' : List GrantAttempt)
    → IsDecided interval grant_export first (s3_cache_decision first interval grant_export a as')
unfolding s3_cache_decision
s3_cache_decision-IsDecided (failed f) interval grant_export a as' = refl
s3_cache_decision-IsDecided (got bp) interval grant_export a as' =
    let policy = (apply_defaults bp.spec).s3_cache_policy in
    elim (Bool-cases (bytes_eq policy s3_cache_never)) [
      | inl never ↦ rw never (inl ((bytes_eq_iff _ _).0 never, refl))
      | inr imported ↦ rw imported (elim (Bool-cases (bytes_eq policy s3_cache_always)) [
        | inl always ↦ rw always (inr (inl ((bytes_eq_iff _ _).0 always, refl)))
        | inr paced ↦
            let (imports, may) = decide_cadence-MayExport interval grant_export a as' in
            rw paced (inr (inr (refl, refl, imports, may)))
      ])
    ]
