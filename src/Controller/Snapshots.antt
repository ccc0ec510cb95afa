-- ===== src/Controller/Snapshots.antt =====
-- `maybeSnapshot`, `newestSnapshot` and `pruneSnapshots` of internal/controller/buildproject_controller.go.
pub mod Due
pub mod Retention
use buildkit_operator.Base.{
  ℕ, ◌+◌, ◌*◌, ◌≡◌, Bool, ◌||◌, ltb, leb, zero, suc, negsuc, if◌then◌else◌, ℤ, pos, ◌-ℤ◌, wrap64,
  leb_ℤ, ltb_ℤ, sub_ℕ, itoa, Option, none, some, List, [], ◌∷◌, ◌++◌, map, length, drop, Bytes,
  text, is_empty, Time, Duration, second, seconds, time_sub,
}
use buildkit_operator.Api.Types.{BuildProject}
use buildkit_operator.Router.{cache_pvc_name}
use buildkit_operator.Controller.Effects.{
  Error, not_found, Read, found, missing, unreadable, Written, done, gone, refused,
}
use buildkit_operator.Controller.Elasticity.{Settings}

-- A VolumeSnapshot: its name and its creation.
pub record Snapshot : Type 0 where
  pub name : Bytes
  pub created : Time

pub data SnapAction : Type 0 where
  create_snapshot : Bytes → SnapAction
  record_snapshot : Bytes → SnapAction
  delete_snapshot : Bytes → SnapAction

-- What the environment answers; `made_at` is the creation that the API server gives the new one.
pub record SnapAnswers : Type 0 where
  pub pvc : Read (Unit {0})
  pub snaps : Read (List Snapshot)
  pub at_age : Time
  pub at_name : Time
  pub owner : Option Error
  pub created : Written
  pub made_at : Time

-- The duration and the error come back together; the name is what is left in the status.
pub record SnapRun : Type 0 where
  pub log : List SnapAction
  pub after : Duration
  pub error : Option Error
  pub last_snapshot : Bytes

-- `newestSnapshot`: the first of the youngest, walked from the left.
unfoldable pub newest_from : Option Snapshot → List Snapshot → Option Snapshot
newest_from newest [] = newest
newest_from none (s ∷ ss) = newest_from (some s) ss
newest_from (some n) (s ∷ ss) = newest_from (if ltb n.created s.created then some s else some n) ss

unfoldable pub newest_snapshot : List Snapshot → Option Snapshot
newest_snapshot items = newest_from none items

-- `sort.Slice` by `After`; it leaves the order of equal creations open, and here it is the given one.
unfoldable pub insert_newest : Snapshot → List Snapshot → List Snapshot
insert_newest s [] = s ∷ []
insert_newest s (t ∷ ts) =
    let rest = insert_newest s ts in if ltb s.created t.created then t ∷ rest else s ∷ (t ∷ ts)

unfoldable pub sort_newest : List Snapshot → List Snapshot
sort_newest [] = []
sort_newest (s ∷ ss) = insert_newest s (sort_newest ss)

-- How many snapshots stay.
unfoldable pub kept_count : ℤ → ℕ
kept_count (pos zero) = 3
kept_count (pos (suc n)) = suc n
kept_count (negsuc n) = 3

abbrev pub delete_of : Snapshot → SnapAction
delete_of s = delete_snapshot s.name

-- `pruneSnapshots`; what a deletion answers is ignored.
unfoldable pub prune_snapshots : ℤ → List Snapshot → List SnapAction
prune_snapshots keep_snapshots items =
    let keep = kept_count keep_snapshots in
    if leb (length items) keep then [] else map delete_of (drop keep (sort_newest items))

-- 1970-01-01 on the clock of this development.
abbrev pub unix_epoch : ℕ
unix_epoch = 62135596800 * second

unfoldable pub snapshot_name : Bytes → Time → Bytes
snapshot_name key now = text "snap-" ++ (key ++ (text "-" ++ itoa (sub_ℕ now unix_epoch)))

-- How long until the youngest snapshot is due again, if it is not.
unfoldable pub not_due : Option Snapshot → Duration → Time → Option Duration
not_due none cadence now = none
not_due (some s) cadence now =
    let age = time_sub now s.created in
    if ltb_ℤ age cadence then some (wrap64 (cadence -ℤ age)) else none

-- From the call of `Create` on.
unfoldable pub take_snapshot :
    Settings → BuildProject → SnapAnswers → List Snapshot → Bytes → Duration → SnapRun
take_snapshot r bp a snaps name cadence =
    let old = bp.status.last_snapshot in
    elim a.created [
      | refused e ↦ record {
        log = create_snapshot name ∷ [];
        after = cadence;
        error = some e;
        last_snapshot = old;
      }
      | gone ↦ record {
        log = create_snapshot name ∷ [];
        after = cadence;
        error = some not_found;
        last_snapshot = old;
      }
      | done ↦ record {
        log =
            create_snapshot name
            ∷ (record_snapshot name
                ∷ prune_snapshots r.keep_snapshots
                    (snaps ++ (record { name = name; created = a.made_at } ∷ [])));
        after = cadence;
        error = none;
        last_snapshot = name;
      }
    ]

-- A return before anything is asked for.
abbrev pub stop_snapshot : BuildProject → Duration → Option Error → SnapRun
stop_snapshot bp after error = record {
  log = [];
  after = after;
  error = error;
  last_snapshot = bp.status.last_snapshot;
}

-- Snapshots are off for the project or for the operator.
abbrev pub is_off : Settings → BuildProject → Bool
is_off r bp = leb_ℤ bp.spec.snapshot_every_sec (pos 0) || is_empty r.snapshot_class

-- `maybeSnapshot`.
unfoldable pub maybe_snapshot : Settings → BuildProject → SnapAnswers → SnapRun
maybe_snapshot r bp a =
    let cadence = seconds bp.spec.snapshot_every_sec in
    if is_off r bp then stop_snapshot bp (pos 0) none else elim a.pvc [
      | missing ↦ stop_snapshot bp cadence none
      | unreadable e ↦ stop_snapshot bp cadence (some e)
      | found _ ↦ elim a.snaps [
        | missing ↦ stop_snapshot bp cadence (some not_found)
        | unreadable e ↦ stop_snapshot bp cadence (some e)
        | found snaps ↦ elim (not_due (newest_snapshot snaps) cadence a.at_age) [
          | some rest ↦ stop_snapshot bp rest none
          | none ↦ elim a.owner [
            | some e ↦ stop_snapshot bp cadence (some e)
            | none ↦ take_snapshot r bp a snaps (snapshot_name bp.spec.key a.at_name) cadence
          ]
        ]
      ]
    ]
