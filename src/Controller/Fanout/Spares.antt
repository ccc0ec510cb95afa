-- ===== src/Controller/Fanout/Spares.antt =====
-- `reconcileFanout`: which clones go and which come.
use buildkit_operator.Base.{
  ◌≡◌, inl, inr, Bool, true, false, ◌||◌, pos, leb_ℤ, List, [], ◌∷◌, is_empty, Bytes, All,
  All-append, arith, Bool-cases, Option-cases,
}
use buildkit_operator.Api.Types.{BuildProject, InflightBuild}
use buildkit_operator.Api.Derive.{clone_child, derive_child}
use buildkit_operator.Controller.Effects.{missing, Read-cases, Written-cases, ok, Result-cases}
use buildkit_operator.Controller.Elasticity.{Settings}
use buildkit_operator.Controller.Inflight.{fresh_inflight_entries}
use buildkit_operator.Controller.Fanout.{
  FanoutAction, delete_clone, create_clone, FanoutAnswers, FanoutRun, fanout_count, clone_labels,
  clone_keys, is_among, prune_clones, create_clones, grow_fanout, reconcile_fanout, then_also,
}

module _ (r : Settings) (bp : BuildProject) (snapshot : Bytes) (a : FanoutAnswers) where
  -- The keys that fan-out wants.
  abbrev pub wanted : List Bytes
  wanted = clone_keys bp.spec.key 1 (fanout_count bp.spec.fanout)

  -- A clone goes that is not wanted and on which a fresh read shows no build; a clone comes that is
  -- not there, as a child of the parent.
  abbrev pub IsSound : FanoutAction → Type 0
  IsSound (delete_clone name) =
      (is_among name wanted ≡ false)
      × (fresh_inflight_entries r (a.fresh name) (a.fresh_now name) ≡ ok [])
  IsSound (create_clone ckey labels spec) =
      (a.existing ckey ≡ missing)
      × (labels ≡ clone_labels bp.spec.key)
      × (spec ≡ derive_child bp.spec snapshot clone_child ckey)

  -- The step for a clone whose fresh read is in.
  pruned_log-IsSound :
      (clone : BuildProject) (clones : List BuildProject) (deferred : Bool)
      (live : List InflightBuild)
      → is_among clone.name wanted ≡ false
      → fresh_inflight_entries r (a.fresh clone.name) (a.fresh_now clone.name) ≡ ok live
      → ((d : Bool) → All IsSound (prune_clones r a wanted d clones).log)
      → All IsSound (prune_clones r a wanted deferred (clone ∷ clones)).log
  unfolding prune_clones
  pruned_log-IsSound clone clones deferred [] unwanted e rest =
      rw (unwanted, e)
        (elim (Written-cases (a.deleted clone.name)) [
          | inl d ↦ rw d ((unwanted, e), rest deferred)
          | inr (inl g) ↦ rw g ((unwanted, e), rest deferred)
          | inr (inr (x, f)) ↦ rw f ((unwanted, e), tt)
        ])
  pruned_log-IsSound clone clones deferred (b ∷ bs) unwanted e rest = rw (unwanted, e) (rest true)

  prune_clones-IsSound :
      (deferred : Bool) (clones : List BuildProject)
      → All IsSound (prune_clones r a wanted deferred clones).log
  unfolding prune_clones
  prune_clones-IsSound deferred [] = tt
  prune_clones-IsSound deferred (clone ∷ clones) = elim (Bool-cases (is_among clone.name wanted)) [
    | inl is_wanted ↦ rw is_wanted (prune_clones-IsSound deferred clones)
    | inr unwanted ↦
        (elim (Result-cases
          (fresh_inflight_entries r (a.fresh clone.name) (a.fresh_now clone.name))) [
            | inl (live, e) ↦
                pruned_log-IsSound clone clones deferred live unwanted e
                  (λ d. prune_clones-IsSound d clones)
            | inr (x, failed) ↦ rw (unwanted, failed) tt
          ])
  ]

  create_clones-IsSound :
      (deferred : Bool) (ckeys : List Bytes)
      → All IsSound (create_clones bp snapshot a deferred ckeys).log
  unfolding create_clones
  create_clones-IsSound deferred [] = tt
  create_clones-IsSound deferred (ckey ∷ ckeys) =
      ground (arith, create_clones-IsSound deferred ckeys)

  grow_fanout-IsSound : (deferred : Bool) → All IsSound (grow_fanout bp snapshot a deferred).log
  unfolding grow_fanout
  grow_fanout-IsSound deferred =
      elim (Bool-cases (leb_ℤ bp.spec.fanout (pos 0) || is_empty snapshot)) [
        | inl off ↦ rw off tt
        | inr on ↦ rw on (create_clones-IsSound deferred wanted)
      ]

  then_also-IsSound :
      (m : FanoutRun) (f : Bool → FanoutRun)
      → All IsSound m.log
      → ((deferred : Bool) → All IsSound (f deferred).log)
      → All IsSound (then_also m f).log
  then_also-IsSound m f hm hf = elim (Option-cases m.error) [
    | inl fine ↦ rw fine (All-append IsSound m.log (f m.deferred).log hm (hf m.deferred))
    | inr (x, failed) ↦ rw failed hm
  ]

  -- Every clone that reconcileFanout deletes is not among the wanted keys and shows no live build
  -- on a fresh read; every clone that it creates was not there, is labelled as a clone of the
  -- project, and has the spec derived from the parent and the last snapshot.
  pub reconcile_fanout-IsSound : All IsSound (reconcile_fanout r bp snapshot a).log
  unfolding reconcile_fanout
  reconcile_fanout-IsSound = elim (Read-cases a.clones) [
    | inl (clones, listed) ↦
        let pruned = prune_clones r a wanted false clones in
        let runs : reconcile_fanout r bp snapshot a ≡ then_also pruned (grow_fanout bp snapshot a) =
          cc listed in
        rw runs (
          then_also-IsSound pruned (grow_fanout bp snapshot a) (prune_clones-IsSound false clones)
            grow_fanout-IsSound)
    | inr (inl none_listed) ↦ rw none_listed tt
    | inr (inr (_, unlisted)) ↦ rw unlisted tt
  ]
