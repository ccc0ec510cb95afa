-- ===== src/Provisioner/Kube/Grants.antt =====
-- `S3CacheDecision` of internal/provisioner/k8s/k8s.go: who may export to the cold cache, and how often.
use buildkit_operator.Base.{
  ℕ, ◌+◌, ◌*◌, ◌/◌, ◌≤◌, ◌<◌, second, ◌≡◌, refl, ap, sym, subst, ◌∙◌, inl, inr, Bool, true, false,
  pos, Option, none, some, List, [], ◌∷◌, bytes_eq, bytes_eq_iff, Time, Duration, time_sub,
  max_duration, arith, Bool-cases,
}
use buildkit_operator.Api.Types.{BuildProject, BuildProjectStatus, s3_cache_cadence}
use buildkit_operator.Api.Defaults.{apply_defaults}
use buildkit_operator.Provisioner.Retry.{Fault, Answer, got, failed}
use buildkit_operator.Provisioner.Kube.{Update, GrantAttempt, is_within, stamp_grant, grant_attempt}

-- An accepted stamp: an attempt read a project under the cadence policy whose last grant is at least
-- the interval old, and its write went through.
pub record IsGrant (interval : Duration) (a : GrantAttempt) (u : Update) : Type 0 where
  pub read : BuildProject
  pub answered : a.current ≡ got read
  pub cadence : (apply_defaults read.spec).s3_cache_policy ≡ s3_cache_cadence
  pub due : is_within interval read.status.last_cache_export_grant a.since_now ≡ false
  pub stamped : u.status ≡ record read.status { last_cache_export_grant = some a.now }
  pub accepted : u.refused ≡ none

-- `metav1.Time` in JSON is RFC 3339, without what is below a second.
abbrev pub whole_second : Time → Time
whole_second t = t / second * second

-- A stamp as the API keeps it.
abbrev pub kept : Option Time → Option Time
kept none = none
kept (some t) = some (whole_second t)

-- The grants of a project over time, newest first. `won`: an attempt is accepted only if the
-- status that it read is still the current one, and the API keeps its stamp to the second. `elsewhere`:
-- any other write leaves the stamp.
pub data History (interval : Duration) : BuildProjectStatus → List Time → Type 0 where
  begin : (s : BuildProjectStatus) → History interval s []
  elsewhere :
      {s : BuildProjectStatus} {ts : List Time}
      → History interval s ts
      → (t : BuildProjectStatus) → t.last_cache_export_grant ≡ s.last_cache_export_grant
      → History interval t ts
  won :
      {s : BuildProjectStatus} {ts : List Time}
      → History interval s ts
      → (a : GrantAttempt) (u : Update) → (grant_attempt interval false a).log ≡ u ∷ []
      → u.refused ≡ none
      → ((bp : BuildProject) → a.current ≡ got bp → bp.status ≡ s)
      → a.since_now ≤ a.now
      → (t : BuildProjectStatus) → t.last_cache_export_grant ≡ kept u.status.last_cache_export_grant
      → History interval t (a.now ∷ ts)

-- Each grant comes more than `w` less a second after the one before it.
abbrev pub IsSpaced : ℕ → List Time → Type 0
IsSpaced w [] = Unit {0}
IsSpaced w (u ∷ []) = Unit {0}
IsSpaced w (u ∷ t ∷ ts) = (t + w < u + second) × IsSpaced w (t ∷ ts)

-- The stamp is the newest grant's to the second, if there has been one.
abbrev IsNewest : Option Time → List Time → Type 0
IsNewest last [] = Unit {0}
IsNewest last (t ∷ ts) = last ≡ some (whole_second t)

due_after :
    (w last now : ℕ) → w ≤ max_duration → is_within (pos w) (some last) now ≡ false → last + w ≤ now
unfolding is_within time_sub
due_after w last now h e = ground arith

stamped_by :
    (interval : Duration) (granted : Bool) (a : GrantAttempt) (bp : BuildProject) (u : Update)
    → a.current ≡ got bp
    → bytes_eq (apply_defaults bp.spec).s3_cache_policy s3_cache_cadence ≡ true
    → is_within interval bp.status.last_cache_export_grant a.since_now ≡ false
    → (stamp_grant bp.status granted a).log ≡ u ∷ []
    → u.refused ≡ none
    → IsGrant interval a u
unfolding stamp_grant
stamped_by interval granted a bp u answered cadence due wrote accepted = record {
  read = bp;
  answered = answered;
  cadence = (bytes_eq_iff _ _).0 cadence;
  due = due;
  stamped = cc;
  accepted = accepted;
}

-- What an attempt writes is a grant, once it is accepted.
pub grant_attempt-IsGrant :
    (interval : Duration) (granted : Bool) (current : Answer BuildProject) (since_now now : Time)
    (updated : Option Fault) (u : Update)
    → let a : GrantAttempt = record {
      current = current;
      since_now = since_now;
      now = now;
      updated = updated;
    } in
      (grant_attempt interval granted a).log ≡ u ∷ [] → u.refused ≡ none → IsGrant interval a u
unfolding grant_attempt
grant_attempt-IsGrant interval granted (failed f) since_now now updated u wrote accepted = cc
grant_attempt-IsGrant interval granted (got bp) since_now now updated u wrote accepted =
    let policy = (apply_defaults bp.spec).s3_cache_policy in
    elim (Bool-cases (bytes_eq policy s3_cache_cadence)) [
      | inl cadence ↦
          elim (Bool-cases (is_within interval bp.status.last_cache_export_grant since_now)) [
            | inl early ↦ absurd (ground arith)
            | inr due ↦ stamped_by interval granted _ bp u refl cadence due (ground arith) accepted
          ]
      | inr another ↦ absurd (ground arith)
    ]

IsSpaced-after :
    (w : ℕ) (last : Option Time) (since_now now : Time) (ts : List Time)
    → w ≤ max_duration
    → IsNewest last ts
    → is_within (pos w) last since_now ≡ false
    → since_now ≤ now
    → IsSpaced w ts
    → IsSpaced w (now ∷ ts)
IsSpaced-after w last since_now now [] h n due clock s = tt
IsSpaced-after w last since_now now (t ∷ ts) h n due clock s =
    let e : is_within (pos w) (some (whole_second t)) since_now ≡ false =
      subst (λ (l : Option Time). is_within (pos w) l since_now ≡ false) n due in
    (omega (arith, due_after w (whole_second t) since_now h e), s)

history :
    (w : ℕ) {s : BuildProjectStatus} {ts : List Time}
    → w ≤ max_duration
    → History (pos w) s ts
    → IsNewest s.last_cache_export_grant ts × IsSpaced w ts
history w h (begin s) = (tt, tt)
history w h (elsewhere {ts = ts} d t same) =
    let (newest, spaced) = history w h d in (subst (λ l. IsNewest l ts) (sym same) newest, spaced)
history w h (won {s = s} {ts = ts} d a u wrote accepted current clock t e) =
    let (newest, spaced) = history w h d in
    let g =
      grant_attempt-IsGrant (pos w) false a.current a.since_now a.now a.updated u wrote accepted in
    let same =
      ap (λ (x : BuildProjectStatus). x.last_cache_export_grant) (current g.read g.answered) in
    (
      e ∙ ap (λ (x : BuildProjectStatus). kept x.last_cache_export_grant) g.stamped,
      IsSpaced-after w g.read.status.last_cache_export_grant a.since_now a.now ts h
          (subst (λ l. IsNewest l ts) (sym same) newest) g.due clock spaced,
    )

-- In every history of a project in which an attempt's write is accepted only if the status that it
-- read is the current one, the API keeps a stamp to the second, the clock does not run back inside
-- an attempt, and other writes leave the stamp alone, two grants of a cache export in a row are
-- more than the interval less a second apart, for an interval of at most the largest duration.
pub grants-IsSpaced :
    (w : ℕ) {s : BuildProjectStatus} {ts : List Time}
    → w ≤ max_duration
    → History (pos w) s ts
    → IsSpaced w ts
grants-IsSpaced w h d = (history w h d).1
