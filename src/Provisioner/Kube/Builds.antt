-- ===== src/Provisioner/Kube/Builds.antt =====
-- `StartInflight`, `EndInflight` and `Touch` of internal/provisioner/k8s/k8s.go: what the status is after them.
use buildkit_operator.Base.{
  ℕ, ◌+◌, ◌-◌, ◌≡◌, refl, ◌∙◌, ap, ◌⊎◌, inl, inr, Bool, true, false, none, some, List, [], ◌∷◌,
  ◌++◌, length, drop, is_empty, All, Bytes, Time, Duration, arith, Bool-cases,
}
use buildkit_operator.Router.{is_fork_key}
use buildkit_operator.Api.Types.{InflightBuild, BuildProject, BuildProjectStatus}
use buildkit_operator.Api.Inflight.{
  inflight_cap, inflight_count, inflight_id, cap_inflight, set_inflight, start_inflight,
  end_inflight_before, adopt_legacy_inflight,
}
use buildkit_operator.Api.Inflight.Capacity.{
  IsProjected, length-cap_inflight, cap_inflight_id, start_inflight-append,
}
use buildkit_operator.Api.Inflight.Release.{Removes, names, end_inflight_named}
use buildkit_operator.Api.Adaptive.{record_build_time}
use buildkit_operator.Provisioner.Retry.{Fault, status_steps, IsRetried}
use buildkit_operator.Provisioner.Kube.{
  Update, Attempt, Mutation, touch_attempt, touch_status, live_entries, cutoff, start_build,
  retriable_touch, end_build, start_inflight_build, end_inflight_build,
}
use buildkit_operator.Provisioner.Kube.Touched.{IsRefused, IsOnce, touch_status-IsOnce}

-- The last write is accepted, stands in `P` to a status that was read, and all before it are refused.
pub record IsWritten (P : BuildProjectStatus → Time → BuildProjectStatus → Type 0)
    (log : List Update) : Type 0 where
  pub read : BuildProject
  pub now : Time
  pub after : BuildProjectStatus
  pub holds : P read.status now after
  pub earlier : List Update
  pub refused : All IsRefused earlier
  pub last : log ≡ earlier ++ (record { status = after; refused = none } ∷ [])

-- One accepted write, or none at all.
abbrev pub Writes :
    (BuildProjectStatus → Time → BuildProjectStatus → Type 0) → Bool × List Update → Type 0
Writes P (true, log) = IsWritten P log
Writes P (false, log) = All IsRefused log

-- The status that a change leaves, with the stamp.
abbrev pub stamped : BuildProjectStatus → Time → BuildProjectStatus
stamped st now = record st { last_build_time = some now }

module _ (mutate : Mutation) (P : BuildProjectStatus → Time → BuildProjectStatus → Type 0)
    (change : (st : BuildProjectStatus) (now : Time)
      → (mutate st now).1 ≡ true
      → P st now (stamped (mutate st now).0 now)) where
  Writes-IsOnce : (r : Bool × List Update) → IsOnce mutate r → Writes P r
  Writes-IsOnce (true, log) k = record {
    read = k.read;
    now = k.now;
    after = stamped (mutate k.read.status k.now).0 k.now;
    holds = change k.read.status k.now k.changed;
    earlier = k.earlier;
    refused = k.refused;
    last = k.last;
  }
  Writes-IsOnce (false, log) k = k

  pub touch_status-Writes :
      (retriable : Fault → Bool) (n : ℕ) (a : Attempt) (as' : List Attempt)
      → IsRetried (touch_attempt mutate) retriable n false a as'
      → Writes P (touch_status mutate a as')
  touch_status-Writes retriable n a as' h =
      Writes-IsOnce (touch_status mutate a as') (touch_status-IsOnce mutate retriable n a as' h)

-- What a status write leaves alone.
pub record Keeps (before after : BuildProjectStatus) : Type 0 where
  pub snapshot : after.last_snapshot ≡ before.last_snapshot
  pub grant : after.last_cache_export_grant ≡ before.last_cache_export_grant

live_entries-Keeps :
    (max_build : Duration) (st : BuildProjectStatus) (now : Time)
    → let after = (live_entries max_build st now).0 in
      (after.recent_build_times ≡ st.recent_build_times) × Keeps st after
unfolding live_entries adopt_legacy_inflight
live_entries-Keeps max_build st now = ground arith

module _ (sha256 : Bytes → Bytes) (max_build : Duration) where
  -- The status after a build is registered: the live entries, from the front of which only what
  -- exceeds the cap is gone, with the new build behind them.
  pub record Started (key id : Bytes) (before : BuildProjectStatus) (now : Time)
      (after : BuildProjectStatus) : Type 0 where
    pub projected : IsProjected after
    pub entered :
        let live = (live_entries max_build before now).1 in
        after.inflight
        ≡ drop (length live + 1 - inflight_cap) live
          ++ (record { id = inflight_id sha256 id; since = now } ∷ [])
    pub stamp : after.last_build_time ≡ some now
    pub ring :
        ((is_fork_key key ≡ true) × (after.recent_build_times ≡ before.recent_build_times))
        ⊎ ((is_fork_key key ≡ false)
            × (after.recent_build_times ≡ record_build_time before.recent_build_times now))
    pub keeps : Keeps before after

  -- A status after a build is released: its entries are the live ones without the first one of the
  -- token.
  pub record Ended (id : Bytes) (before : BuildProjectStatus) (now : Time)
      (after : BuildProjectStatus) : Type 0 where
    pub projected : IsProjected after
    pub rest : List InflightBuild
    pub released : Removes (names sha256 id) (live_entries max_build before now).1 rest
    pub left : after.inflight ≡ cap_inflight rest
    pub stamp : after.last_build_time ≡ some now
    pub ring : after.recent_build_times ≡ before.recent_build_times
    pub keeps : Keeps before after

  -- Capping a second time changes nothing.
  start_inflight-capped :
      (bs : List InflightBuild) (id : Bytes) (now : Time)
      → cap_inflight (start_inflight sha256 bs id now) ≡ start_inflight sha256 bs id now
  unfolding start_inflight
  start_inflight-capped bs id now =
      cap_inflight_id (start_inflight sha256 bs id now) (length-cap_inflight _)

  pub start_build-Started :
      (key id : Bytes) (st : BuildProjectStatus) (now : Time)
      → Started key id st now (stamped (start_build sha256 max_build key id st now).0 now)
  unfolding start_build set_inflight inflight_count
  start_build-Started key id st now =
      let kept = live_entries-Keeps max_build st now in
      let live = (live_entries max_build st now).1 in
      let entered = start_inflight-capped live id now ∙ start_inflight-append sha256 live id now in
      let projected = length-cap_inflight (start_inflight sha256 live id now) in
      elim (Bool-cases (is_fork_key key)) [
        | inl fork ↦ rw fork (record {
          projected = (refl, projected);
          entered = entered;
          stamp = refl;
          ring = inl (fork, kept.0);
          keeps = record { snapshot = kept.1.snapshot; grant = kept.1.grant };
        })
        | inr canonical ↦ rw canonical (record {
          projected = (refl, projected);
          entered = entered;
          stamp = refl;
          ring = inr (canonical, ap (λ (ts : List Time). record_build_time ts now) kept.0);
          keeps = record { snapshot = kept.1.snapshot; grant = kept.1.grant };
        })
      ]

  -- Over attempts that OnError makes, StartInflight has either every write refused and reports
  -- false, or its last write accepted and all before it refused; the accepted status then has the
  -- entries that were live when it was read, from whose front only those over the cap are gone,
  -- with the new build last, a count that is their number and within the cap, the stamp of the
  -- build, and the time of the build in the ring unless the key is a fork's; snapshot and export
  -- grant stay.
  pub start_inflight_build-Writes :
      (key id : Bytes) (a : Attempt) (as' : List Attempt)
      → IsRetried
          (touch_attempt (start_build sha256 max_build key id))
          (retriable_touch true)
          status_steps
          false
          a
          as'
      → Writes (Started key id) (start_inflight_build sha256 max_build key id a as')
  unfolding start_inflight_build
  start_inflight_build-Writes key id =
      touch_status-Writes (start_build sha256 max_build key id) (Started key id)
        (λ st now changed. start_build-Started key id st now) (retriable_touch true) status_steps

  -- A named release that takes place.
  released_by :
      (id : Bytes) (bs : List InflightBuild) (at : Time)
      → is_empty id ≡ false
      → (end_inflight_before sha256 bs id at).1 ≡ true
      → Removes (names sha256 id) bs (end_inflight_before sha256 bs id at).0
  unfolding end_inflight_before
  released_by id bs at named found = elim (end_inflight_named sha256 bs id (some at) named) [
    | inl (_, removes) ↦ removes
    | inr (missed, same, misses) ↦ cc
  ]

  end_build-Ended :
      (id : Bytes) (st : BuildProjectStatus) (now : Time)
      → is_empty id ≡ false
      → (end_build sha256 max_build id st now).1 ≡ true
      → Ended id st now (stamped (end_build sha256 max_build id st now).0 now)
  unfolding end_build set_inflight inflight_count
  end_build-Ended id st now named done =
      let kept = live_entries-Keeps max_build st now in
      let live = (live_entries max_build st now).1 in
      let r = end_inflight_before sha256 live id (cutoff max_build now) in
      elim (Bool-cases r.1) [
        | inl found ↦ rw found (record {
          projected = (refl, length-cap_inflight r.0);
          rest = r.0;
          released = released_by id live (cutoff max_build now) named found;
          left = refl;
          stamp = refl;
          ring = kept.0;
          keeps = record { snapshot = kept.1.snapshot; grant = kept.1.grant };
        })
        | inr lost ↦ absurd (ground arith)
      ]

  -- Over attempts that OnError makes, EndInflight with a token has either every write refused and
  -- reports false, or reports true, its last write accepted and all before it refused; then an
  -- entry of that token was live when the status was read, and the accepted status has the live
  -- entries without the first such one, a count that is their number and within the cap, and the
  -- ring, the snapshot and the export grant as they were.
  pub end_inflight_build-Writes :
      (id : Bytes) (a : Attempt) (as' : List Attempt)
      → is_empty id ≡ false
      → IsRetried
          (touch_attempt (end_build sha256 max_build id))
          (retriable_touch false)
          status_steps
          false
          a
          as'
      → Writes (Ended id) (end_inflight_build sha256 max_build id a as')
  unfolding end_inflight_build
  end_inflight_build-Writes id a as' named =
      touch_status-Writes (end_build sha256 max_build id) (Ended id)
        (λ st now found. end_build-Ended id st now named found) (retriable_touch false) status_steps
        a as'
