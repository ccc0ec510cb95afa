-- ===== src/Controller/Snapshots/Retention.antt =====
-- `pruneSnapshots`: which snapshots stay and which go.
use buildkit_operator.Base.{
  ℕ, zero, suc, ◌≡◌, ◌≤◌, refl, ap, ◌∙◌, inl, inr, ltb, leb, ℤ, min, List, [], ◌∷◌, ◌++◌, map,
  length, take, drop, All, All-drop, All-of, All-both, length-take, append-nil, take-append-drop,
  arith, Bool-cases,
}
use mathlib.Core.List.{Perm}
use mathlib.Core.List.Perm
use buildkit_operator.Controller.Snapshots.{
  Snapshot, SnapAction, insert_newest, sort_newest, kept_count, delete_of, prune_snapshots,
}

-- Youngest first.
abbrev pub NotAfter : Snapshot → List Snapshot → Type 0
NotAfter s ts = All (λ (t : Snapshot). t.created ≤ s.created) ts

abbrev pub IsDescending : List Snapshot → Type 0
IsDescending [] = Unit {0}
IsDescending (s ∷ ss) = NotAfter s ss × IsDescending ss

NotAfter-insert_newest :
    (s t : Snapshot) (ts : List Snapshot)
    → t.created ≤ s.created
    → NotAfter s ts
    → NotAfter s (insert_newest t ts)
unfolding insert_newest
NotAfter-insert_newest s t [] h hs = (h, tt)
NotAfter-insert_newest s t (u ∷ us) h hs = ground (arith, NotAfter-insert_newest s t us h hs.1)

NotAfter-trans :
    (s t : Snapshot) (ts : List Snapshot) → t.created ≤ s.created → NotAfter t ts → NotAfter s ts
NotAfter-trans s t [] h hs = tt
NotAfter-trans s t (u ∷ us) h hs = (omega (arith, hs.0), NotAfter-trans s t us h hs.1)

insert_newest-IsDescending :
    (s : Snapshot) (ts : List Snapshot) → IsDescending ts → IsDescending (insert_newest s ts)
unfolding insert_newest
insert_newest-IsDescending s [] h = (tt, tt)
insert_newest-IsDescending s (t ∷ ts) h = elim (Bool-cases (ltb s.created t.created)) [
  | inl older ↦
      rw older
        (NotAfter-insert_newest t s ts (ground arith) h.0, insert_newest-IsDescending s ts h.1)
  | inr younger ↦
      let le : t.created ≤ s.created = ground arith in
      rw younger ((le, NotAfter-trans s t ts le h.0), h)
]

sort_newest-IsDescending : (ss : List Snapshot) → IsDescending (sort_newest ss)
unfolding sort_newest
sort_newest-IsDescending [] = tt
sort_newest-IsDescending (s ∷ ss) =
    insert_newest-IsDescending s (sort_newest ss) (sort_newest-IsDescending ss)

insert_newest-Perm : (s : Snapshot) (ts : List Snapshot) → Perm (insert_newest s ts) (s ∷ ts)
unfolding insert_newest
insert_newest-Perm s [] = Perm.refl (s ∷ [])
insert_newest-Perm s (t ∷ ts) = elim (Bool-cases (ltb s.created t.created)) [
  | inl older ↦ rw older (Perm.trans (Perm.cons t (insert_newest-Perm s ts)) (Perm.swap s t ts))
  | inr younger ↦ rw younger (Perm.refl (s ∷ (t ∷ ts)))
]

sort_newest-Perm : (ss : List Snapshot) → Perm (sort_newest ss) ss
unfolding sort_newest
sort_newest-Perm [] = Perm.refl []
sort_newest-Perm (s ∷ ss) =
    Perm.trans (insert_newest-Perm s (sort_newest ss)) (Perm.cons s (sort_newest-Perm ss))

-- Whatever is behind a cut is no younger than what is before it.
drop-Older :
    (n : ℕ) (ss : List Snapshot)
    → IsDescending ss
    → All
        (λ (old : Snapshot). All (λ (new : Snapshot). old.created ≤ new.created) (take n ss))
        (drop n ss)
drop-Older zero ss h =
    All-of (λ (old : Snapshot). All (λ (new : Snapshot). old.created ≤ new.created) []) (λ old. tt)
      ss
drop-Older (suc n) [] h = tt
drop-Older (suc n) (s ∷ ss) h =
    All-both (λ (old : Snapshot). old.created ≤ s.created)
      (λ (old : Snapshot). All (λ (new : Snapshot). old.created ≤ new.created) (take n ss))
      (drop n ss) (All-drop (λ (t : Snapshot). t.created ≤ s.created) n ss h.0)
      (drop-Older n ss h.1)

length-insert_newest :
    (s : Snapshot) (ts : List Snapshot) → length (insert_newest s ts) ≡ suc (length ts)
unfolding insert_newest
length-insert_newest s [] = refl
length-insert_newest s (t ∷ ts) = ground (arith, length-insert_newest s ts)

length-sort_newest : (ss : List Snapshot) → length (sort_newest ss) ≡ length ss
unfolding sort_newest
length-sort_newest [] = refl
length-sort_newest (s ∷ ss) =
    omega (arith, length-sort_newest ss, length-insert_newest s (sort_newest ss))

-- What a prune does to a set of snapshots.
pub record KeepsNewest (limit : ℕ) (items : List Snapshot) (log : List SnapAction) : Type 0 where
  pub kept : List Snapshot
  pub dropped : List Snapshot
  pub same_set : Perm (kept ++ dropped) items
  pub deletes : log ≡ map delete_of dropped
  pub sized : length kept ≡ min limit (length items)
  pub older :
      All (λ (old : Snapshot). All (λ (new : Snapshot). old.created ≤ new.created) kept) dropped

-- pruneSnapshots splits the snapshots into those that stay, as many as the limit allows, and those
-- it asks to delete, none of which is younger than one that stays.
pub prune_snapshots-KeepsNewest :
    (keep_snapshots : ℤ) (items : List Snapshot)
    → KeepsNewest (kept_count keep_snapshots) items (prune_snapshots keep_snapshots items)
unfolding prune_snapshots
prune_snapshots-KeepsNewest keep_snapshots items =
    let keep = kept_count keep_snapshots in
    let sorted = sort_newest items in
    elim (Bool-cases (leb (length items) keep)) [
      | inl few ↦ record {
        kept = items;
        dropped = [];
        same_set = rw (append-nil items) (Perm.refl items);
        deletes = rw few;
        sized = ground arith;
        older = tt;
      }
      | inr many ↦ record {
        kept = take keep sorted;
        dropped = drop keep sorted;
        same_set = rw (take-append-drop keep sorted) (sort_newest-Perm items);
        deletes = rw many;
        sized = length-take keep sorted ∙ ap (min keep) (length-sort_newest items);
        older = drop-Older keep sorted (sort_newest-IsDescending items);
      }
    ]
