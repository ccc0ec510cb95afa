-- ===== src/Provisioner/Local/Lifecycle/Idle.antt =====
-- `Reconcile` of internal/provisioner/local/local.go: which instances a pass stops, and which it snapshots.
use buildkit_operator.Base.{
  zero, suc, ℤ, subst, ap, take, Has, negsuc, All-mono, ◌-◌, ℕ, ◌<◌, ◌≡◌, refl, ◌⊎◌, inl, inr, Bool,
  true, false, ltb_ℤ, pos, Option, some, List, [], ◌∷◌, length, All, All-append, Bytes, Time,
  time_sub, arith, Bool-cases, Option-cases,
}
use buildkit_operator.Router.{daemon_name, is_fork_key}
use buildkit_operator.Provisioner.Local.{ProjectState, Projects}
use buildkit_operator.Provisioner.Local.Instances.{
  HostConfig, HostCall, ensure_dataset, clone, launch, start, stop, apply_egress, snapshot,
  destroy_snapshot, dataset,
}
use buildkit_operator.Provisioner.Local.Lifecycle.{
  Pace, expire_state, is_idle, is_snapshot_due, scan, stop_idle, SnapshotAnswers, destroyed, prune,
  snapshot_local, snapshot_all, reconcile_local,
}

-- Some project of the list is in `P`.
abbrev pub Some : (Bytes → ProjectState → Type 0) → Projects → Type 0
Some P [] = ⊥
Some P ((key, st) ∷ m) = P key st ⊎ Some P m

-- The state as a pass sees it has no build that is still running, is not hot, has seen a build, and
-- that is longer ago than the timeout.
pub record IsIdle (p : Pace) (now : Time) (key : Bytes) (st : ProjectState) : Type 0 where
  pub cold : st.hot ≡ false
  pub unpinned : (expire_state p now st).inflight ≡ []
  pub built : 0 < st.last_build
  pub rested : ltb_ℤ p.idle_timeout (time_sub now st.last_build) ≡ true

-- A project of a canonical key that is not hot, has seen a build, and had its last snapshot longer ago
-- than the interval.
pub record IsDue (p : Pace) (now : Time) (key : Bytes) (st : ProjectState) : Type 0 where
  pub enabled : ltb_ℤ (pos 0) p.snapshot_every ≡ true
  pub canonical : is_fork_key key ≡ false
  pub cold : st.hot ≡ false
  pub built : 0 < st.last_build
  pub elapsed : ltb_ℤ p.snapshot_every (time_sub now st.last_snap_at) ≡ true

is_idle-IsIdle :
    (p : Pace) (now : Time) (key : Bytes) (st : ProjectState)
    → is_idle p now (expire_state p now st) ≡ true
    → IsIdle p now key st
unfolding is_idle expire_state
is_idle-IsIdle p now key st h = ground arith

is_snapshot_due-IsDue :
    (p : Pace) (now : Time) (key : Bytes) (st : ProjectState)
    → is_snapshot_due p now key (expire_state p now st) ≡ true
    → IsDue p now key st
unfolding is_snapshot_due expire_state
is_snapshot_due-IsDue p now key st h = ground arith

Some-mono :
    (P Q : Bytes → ProjectState → Type 0)
    → ((k : Bytes) (st : ProjectState) → P k st → Q k st)
    → (m : Projects) → Some P m
    → Some Q m
Some-mono P Q f [] h = h
Some-mono P Q f ((k, st) ∷ m) (inl h) = inl (f k st h)
Some-mono P Q f ((k, st) ∷ m) (inr h) = inr (Some-mono P Q f m h)

-- The project of the key is in `P`.
abbrev At : (Bytes → ProjectState → Type 0) → Bytes → Bytes → ProjectState → Type 0
At P key k st = (key ≡ k) × P k st

-- A key that is found among the rest is found in the whole.
among_rest :
    (P : Bytes → ProjectState → Type 0) (k : Bytes) (st : ProjectState) (m : Projects)
    (keys : List Bytes)
    → All (λ key. Some (At P key) m) keys
    → All (λ key. Some (At P key) ((k, st) ∷ m)) keys
among_rest P k st m keys h =
    All-mono (λ key. Some (At P key) m) (λ key. Some (At P key) ((k, st) ∷ m)) (λ key s. inr s) keys
      h

scan-IsIdle :
    (p : Pace) (now : Time) (m : Projects)
    → All (λ key. Some (At (IsIdle p now) key) m) (scan p now m).idle
unfolding scan
scan-IsIdle p now [] = tt
scan-IsIdle p now ((k, st) ∷ m) =
    let rest = among_rest (IsIdle p now) k st m (scan p now m).idle (scan-IsIdle p now m) in
    elim (Bool-cases (is_idle p now (expire_state p now st))) [
      | inl idle ↦ rw idle (inl (refl, is_idle-IsIdle p now k st idle), rest)
      | inr busy ↦ rw busy rest
    ]

scan-IsDue :
    (p : Pace) (now : Time) (m : Projects)
    → All (λ key. Some (At (IsDue p now) key) m) (scan p now m).due
unfolding scan
scan-IsDue p now [] = tt
scan-IsDue p now ((k, st) ∷ m) =
    let rest = among_rest (IsDue p now) k st m (scan p now m).due (scan-IsDue p now m) in
    elim (Bool-cases (is_snapshot_due p now k (expire_state p now st))) [
      | inl due ↦ rw due (inl (refl, is_snapshot_due-IsDue p now k st due), rest)
      | inr early ↦ rw early rest
    ]

-- Every entry of a list is in it.
All-Has : (xs : List Bytes) → All (λ s. Has (λ (x : Bytes). s ≡ x) xs) xs
All-Has [] = tt
All-Has (y ∷ ys) = (
  inl refl,
  All-mono (λ s. Has (λ (x : Bytes). s ≡ x) ys) (λ s. Has (λ (x : Bytes). s ≡ x) (y ∷ ys))
      (λ s h. inr h) ys (All-Has ys),
)

-- The project of a key is snapshotted or pruned: with the list that the host gave behind a snapshot
-- that was taken, one of all but the newest.
abbrev pub IsPruned : Pace → SnapshotAnswers → Bytes → Type 0
IsPruned p a s =
    (a.taken ≡ true)
    × (snaps : List Bytes) × (a.listed ≡ some snaps)
    × (keep : ℕ) × (p.keep_snapshots ≡ pos keep)
    × (0 < keep)
    × Has (λ (x : Bytes). s ≡ x) (take (length snaps - keep) snaps)

-- What a call of the host may be for, by the projects as the pass found them.
abbrev pub IsSound :
    HostConfig → Pace → Time → (Bytes → SnapshotAnswers) → Projects → HostCall → Type 0
IsSound c p now answers m (stop name) = Some (λ k st. (name ≡ daemon_name k) × IsIdle p now k st) m
IsSound c p now answers m (snapshot ds name) =
    Some (λ k st. (ds ≡ dataset c k) × IsDue p now k st) m
IsSound c p now answers m (destroy_snapshot s) =
    Some (λ k st. IsPruned p (answers k) s × IsDue p now k st) m
IsSound c p now answers m (ensure_dataset ds) = ⊥
IsSound c p now answers m (clone snap ds) = ⊥
IsSound c p now answers m (launch i) = ⊥
IsSound c p now answers m (start name) = ⊥
IsSound c p now answers m (apply_egress name strict) = ⊥

module _ (c : HostConfig) (p : Pace) (now : Time) (answers : Bytes → SnapshotAnswers)
    (m : Projects) where
  stop_idle-IsSound :
      (running : Bytes → Option Bool) (keys : List Bytes)
      → All (λ key. Some (At (IsIdle p now) key) m) keys
      → All (IsSound c p now answers m) (stop_idle running keys)
  unfolding stop_idle
  stop_idle-IsSound running [] h = tt
  stop_idle-IsSound running (key ∷ keys) h =
      let rest = stop_idle-IsSound running keys h.1 in
      let one =
        Some-mono (At (IsIdle p now) key)
          (λ k st. (daemon_name key ≡ daemon_name k) × IsIdle p now k st)
          (λ k st at. (ap daemon_name at.0, at.1)) m h.0 in
      elim (Option-cases (running (daemon_name key))) [
        | inl unknown ↦ rw (unknown, stop_idle) rest
        | inr (up, answered) ↦
            rw (answered, stop_idle)
              (elim (Bool-cases up) [
                | inl runs ↦ rw runs (one, rest)
                | inr stopped ↦ rw stopped rest
              ])
      ]

  destroyed-IsSound :
      (key : Bytes) (cut : List Bytes)
      → Some (At (IsDue p now) key) m
      → All (IsPruned p (answers key)) cut
      → All (IsSound c p now answers m) (destroyed cut)
  destroyed-IsSound key [] due pruned = tt
  destroyed-IsSound key (s ∷ ss) due pruned = (
    Some-mono (At (IsDue p now) key) (λ k st. IsPruned p (answers k) s × IsDue p now k st)
        (λ k st at. (subst (λ (k : Bytes). IsPruned p (answers k) s) at.0 pruned.0, at.1)) m due,
    destroyed-IsSound key ss due pruned.1,
  )

  prune-IsSound :
      (key : Bytes) (snaps : List Bytes) (keep : ℤ)
      → (answers key).taken ≡ true
      → (answers key).listed ≡ some snaps
      → p.keep_snapshots ≡ keep
      → Some (At (IsDue p now) key) m
      → All (IsSound c p now answers m) (prune keep snaps)
  unfolding prune
  prune-IsSound key snaps (pos zero) taken listed kept due = tt
  prune-IsSound key snaps (pos (suc n)) taken listed kept due =
      let cut = take (length snaps - suc n) snaps in
      destroyed-IsSound key cut due (
        All-mono (λ s. Has (λ (x : Bytes). s ≡ x) cut) (IsPruned p (answers key))
          (λ s among. (taken, snaps, listed, suc n, kept, omega arith, among)) cut (All-Has cut))
  prune-IsSound key snaps (negsuc n) taken listed kept due = tt

  snapshot_local-IsSound :
      (key : Bytes) (there : Projects)
      → Some (At (IsDue p now) key) m
      → All (IsSound c p now answers m) (snapshot_local c p key now (answers key) there).log
  unfolding snapshot_local
  snapshot_local-IsSound key there due =
      let one =
        Some-mono (At (IsDue p now) key) (λ k st. (dataset c key ≡ dataset c k) × IsDue p now k st)
          (λ k st at. (ap (dataset c) at.0, at.1)) m due in
      elim (Bool-cases (answers key).taken) [
        | inr lost ↦ rw lost (one, tt)
        | inl taken ↦ rw taken (elim (Option-cases (answers key).listed) [
          | inl unknown ↦ rw unknown (one, tt)
          | inr (snaps, listed) ↦
              rw listed (one, prune-IsSound key snaps p.keep_snapshots taken listed refl due)
        ])
      ]

  snapshot_all-IsSound :
      (meanwhile : Bytes → Projects → Projects) (keys : List Bytes) (there : Projects)
      → All (λ key. Some (At (IsDue p now) key) m) keys
      → All (IsSound c p now answers m) (snapshot_all c p now answers meanwhile keys there).log
  unfolding snapshot_all
  snapshot_all-IsSound meanwhile [] there h = tt
  snapshot_all-IsSound meanwhile (key ∷ keys) there h =
      All-append (IsSound c p now answers m) _ _
        (snapshot_local-IsSound key (meanwhile key there) h.0)
        (snapshot_all-IsSound meanwhile keys _ h.1)

-- Every call of a pass of Reconcile stops an instance, takes a snapshot or destroys one: it stops
-- only the daemon of a project of the pass that is not hot, has no build left after expiry and saw
-- its last build longer ago than the timeout; it takes snapshots only of a canonical project that
-- is not hot, has been built and is due; and it destroys only, behind a snapshot that was taken,
-- those of the listed ones that are not among the newest that are kept.
pub reconcile_local-IsSound :
    (c : HostConfig) (p : Pace) (now : Time) (running : Bytes → Option Bool)
    (answers : Bytes → SnapshotAnswers) (meanwhile : Bytes → Projects → Projects) (m : Projects)
    → All (IsSound c p now answers m) (reconcile_local c p now running answers meanwhile m).log
unfolding reconcile_local
reconcile_local-IsSound c p now running answers meanwhile m =
    All-append (IsSound c p now answers m) _ _
      (stop_idle-IsSound c p now answers m running (scan p now m).idle (scan-IsIdle p now m))
      (snapshot_all-IsSound c p now answers m meanwhile (scan p now m).due (scan p now m).projects
        (scan-IsDue p now m))
