-- ===== src/Provisioner/Contract/Cluster/Entries.antt =====
-- internal/provisioner/k8s/k8s.go: the live entries of a status that one of the changes has just left.
use buildkit_operator.Base.{
  ◌+◌, ◌-◌, ◌≤◌, ◌≡◌, refl, ap, sym, subst, ◌∙◌, inl, inr, true, false, ◌||◌, ltb, leb_ℤ, pos, none,
  some, List, ◌∷◌, length, length-append, drop, is_empty, All, All-of, All-mono, All-append,
  All-drop, All-remove, filter-All, filter-eq_of_All, Bytes, Time, Duration, time_sub, arith,
  Bool-cases,
}
use buildkit_operator.Api.Types.{InflightBuild, BuildProjectStatus}
use buildkit_operator.Api.Inflight.{
  inflight_cap, inflight_count, set_inflight, adopt_legacy_inflight, start_inflight, end_inflight,
  end_inflight_before,
}
use buildkit_operator.Api.Inflight.Capacity.{IsProjected, cap_inflight_id, start_inflight-append}
use buildkit_operator.Api.Inflight.Expiry.{is_live, live, expire_inflight-live}
use buildkit_operator.Api.Inflight.Release.{end_inflight_named, end_inflight_at_named}
use buildkit_operator.Provisioner.Kube.{live_entries, cutoff, start_build, end_build}
use buildkit_operator.Provisioner.Kube.Builds.{stamped, start_build-Started}

-- No bare count is left to adopt.
abbrev pub IsSettled : BuildProjectStatus → Type 0
IsSettled t = (ltb 0 (length t.inflight) || leb_ℤ t.inflight_builds (pos 0)) ≡ true

-- Every entry is inside the window, or there is none.
abbrev pub IsLive : Duration → Time → List InflightBuild → Type 0
IsLive max_build now bs = All (λ b. leb_ℤ max_build (pos 0) || is_live now max_build b ≡ true) bs

set_inflight-IsSettled :
    (bs : List InflightBuild) (t : BuildProjectStatus) → IsSettled (set_inflight bs t)
unfolding set_inflight
set_inflight-IsSettled bs t = ground arith

-- A window that is open passes every entry, and a window that is not shows the entry live.
IsLive-unbounded :
    (max_build : Duration) (now : Time) (bs : List InflightBuild)
    → leb_ℤ max_build (pos 0) ≡ true
    → IsLive max_build now bs
IsLive-unbounded max_build now bs unbounded =
    All-of (λ b. leb_ℤ max_build (pos 0) || is_live now max_build b ≡ true) (λ b. ground arith) bs

IsLive-bounded :
    (max_build : Duration) (now : Time) (bs : List InflightBuild)
    → leb_ℤ max_build (pos 0) ≡ false
    → IsLive max_build now bs
    → All (λ b. is_live now max_build b ≡ true) bs
IsLive-bounded max_build now bs bounded alive =
    All-mono (λ b. leb_ℤ max_build (pos 0) || is_live now max_build b ≡ true)
      (λ b. is_live now max_build b ≡ true) (λ b h. ground arith) bs alive

IsLive-live :
    (max_build : Duration) (now : Time) (bs : List InflightBuild)
    → IsLive max_build now (live now max_build bs)
IsLive-live max_build now bs =
    All-mono (λ b. is_live now max_build b ≡ true)
      (λ b. leb_ℤ max_build (pos 0) || is_live now max_build b ≡ true) (λ b h. ground arith)
      (live now max_build bs) (filter-All (is_live now max_build) bs)

pub live_entries-eq :
    (max_build : Duration) (now : Time) (t : BuildProjectStatus)
    → IsSettled t
    → IsLive max_build now t.inflight
    → (live_entries max_build t now).1 ≡ t.inflight
unfolding live_entries adopt_legacy_inflight
live_entries-eq max_build now t settled alive =
    rw settled (elim (Bool-cases (leb_ℤ max_build (pos 0))) [
      | inl unbounded ↦ rw unbounded
      | inr bounded ↦ rw bounded (
          (expire_inflight-live t.inflight now max_build).0
          ∙ filter-eq_of_All (is_live now max_build) t.inflight
              (IsLive-bounded max_build now t.inflight bounded alive))
    ])

live_entries-bounded :
    (max_build : Duration) (now : Time) (t : BuildProjectStatus)
    → leb_ℤ max_build (pos 0) ≡ false
    → (live_entries max_build t now).1 ≡ live now max_build (adopt_legacy_inflight t).0.inflight
unfolding live_entries
live_entries-bounded max_build now t bounded =
    rw bounded (expire_inflight-live (adopt_legacy_inflight t).0.inflight now max_build).0

live_entries-IsLive :
    (max_build : Duration) (now : Time) (t : BuildProjectStatus)
    → IsLive max_build now (live_entries max_build t now).1
live_entries-IsLive max_build now t = elim (Bool-cases (leb_ℤ max_build (pos 0))) [
  | inl unbounded ↦ IsLive-unbounded max_build now _ unbounded
  | inr bounded ↦
      subst (λ (l : List InflightBuild). IsLive max_build now l)
        (sym (live_entries-bounded max_build now t bounded)) (IsLive-live max_build now _)
]

module _ (sha256 : Bytes → Bytes) (max_build : Duration) (now : Time) where
  start_inflight-IsLive :
      (bs : List InflightBuild) (id : Bytes)
      → IsLive max_build now bs
      → IsLive max_build now (start_inflight sha256 bs id now)
  unfolding time_sub
  start_inflight-IsLive bs id alive = rw (start_inflight-append sha256 bs id now) (
      All-append (λ b. leb_ℤ max_build (pos 0) || is_live now max_build b ≡ true)
        (drop (length bs + 1 - inflight_cap) bs) _
        (All-drop _ (length bs + 1 - inflight_cap) bs alive) (ground arith, tt))

  projected-IsSettled : (t : BuildProjectStatus) → IsProjected t → IsSettled t
  unfolding inflight_count
  projected-IsSettled t h = ground (arith, h.0)

  -- A build that is begun joins the live entries.
  pub start_build-entries :
      (key id : Bytes) (st : BuildProjectStatus)
      → (live_entries max_build (stamped (start_build sha256 max_build key id st now).0 now) now).1
        ≡ start_inflight sha256 (live_entries max_build st now).1 id now
  start_build-entries key id st =
      let after = stamped (start_build sha256 max_build key id st now).0 now in
      let begun = start_build-Started sha256 max_build key id st now in
      let bs = (live_entries max_build st now).1 in
      let entered = begun.entered ∙ sym (start_inflight-append sha256 bs id now) in
      let alive = start_inflight-IsLive bs id (live_entries-IsLive max_build now st) in
      live_entries-eq max_build now after (projected-IsSettled after begun.projected)
        (subst (λ (l : List InflightBuild). IsLive max_build now l) (sym entered) alive)
      ∙ entered

  end_inflight-IsLive :
      (bs : List InflightBuild) (id : Bytes)
      → is_empty id ≡ false
      → IsLive max_build now bs
      → IsLive max_build now (end_inflight sha256 bs id).0
        × (length (end_inflight sha256 bs id).0 ≤ length bs)
  unfolding end_inflight
  end_inflight-IsLive bs id named alive = elim (end_inflight_named sha256 bs id none named) [
    | inl (found, removes) ↦ rw removes.rest (
      All-remove (λ b. leb_ℤ max_build (pos 0) || is_live now max_build b ≡ true) removes.before
          removes.entry removes.after
          (subst (λ (l : List InflightBuild). IsLive max_build now l) removes.whole alive),
      omega (
        arith,
        ap (λ (l : List InflightBuild). length l) removes.whole,
        length-append removes.before (removes.entry ∷ removes.after),
        length-append removes.before removes.after,
      ),
    )
    | inr (missed, same, misses) ↦ rw same (alive, omega arith)
  ]

  -- A build that is released leaves the live entries.
  pub end_build-entries :
      (id : Bytes) (st : BuildProjectStatus)
      → is_empty id ≡ false
      → length (live_entries max_build st now).1 ≤ inflight_cap
      → (end_inflight sha256 (live_entries max_build st now).1 id).1 ≡ true
      → ((end_build sha256 max_build id st now).1 ≡ true)
        × ((live_entries max_build (stamped (end_build sha256 max_build id st now).0 now) now).1
            ≡ (end_inflight sha256 (live_entries max_build st now).1 id).0)
  unfolding end_build end_inflight_before end_inflight set_inflight
  end_build-entries id st named small found =
      let bs = (live_entries max_build st now).1 in
      let rest = (end_inflight sha256 bs id).0 in
      let same = end_inflight_at_named sha256 bs id (some (cutoff max_build now)) none named in
      let (alive, shorter) =
        end_inflight-IsLive bs id named (live_entries-IsLive max_build now st) in
      let capped = cap_inflight_id rest (omega arith) in
      let t = stamped (set_inflight rest (live_entries max_build st now).0) now in
      let left =
        live_entries-eq max_build now t
          (set_inflight-IsSettled rest (live_entries max_build st now).0)
          (subst (λ (l : List InflightBuild). IsLive max_build now l) (sym capped) alive) in
      rw (same, found) (refl, left ∙ capped)

  -- A build that is not found is not released.
  pub end_build-missed :
      (id : Bytes) (st : BuildProjectStatus)
      → is_empty id ≡ false
      → (end_inflight sha256 (live_entries max_build st now).1 id).1 ≡ false
      → (end_build sha256 max_build id st now).1 ≡ false
  unfolding end_build end_inflight_before end_inflight
  end_build-missed id st named lost =
      let bs = (live_entries max_build st now).1 in
      rw (end_inflight_at_named sha256 bs id (some (cutoff max_build now)) none named, lost) refl
