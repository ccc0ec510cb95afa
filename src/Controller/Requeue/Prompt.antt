-- ===== src/Controller/Requeue/Prompt.antt =====
-- The end of `Reconcile`: what the requeue has to meet.
use buildkit_operator.Base.{
  ◌≡◌, ◌⊎◌, inr, Bool, false, ◌&&◌, not, ◌==◌, pos, ltb_ℤ, ◌≤ℤ◌, ◌<ℤ◌, Duration, Time, bytes_eq,
  arith,
}
use buildkit_operator.Api.Types.{BuildProject, tier_hot}
use buildkit_operator.Controller.Elasticity.{Settings, adaptive_idle_max, idle_recheck_interval}
use buildkit_operator.Controller.Requeue.{
  sooner, sooner_if, Passed, idle_requeue, until_expiry, requeue_after, scaling_recheck_interval,
  drain_recheck_interval,
}

-- A requeue is unset or lies in the future.
abbrev pub IsTimely : Duration → Type 0
IsTimely d = (d ≡ pos 0) ⊎ (pos 0 <ℤ d)

-- `d` asks for a look, and `q` comes no later.
abbrev pub Meets : Duration → Duration → Type 0
Meets q d = (pos 0 <ℤ q) × (q ≤ℤ d)

-- If `c` holds, a look is due within `d`.
abbrev pub Asks : Bool → Duration → Duration → Type 0
Asks c d q = (c ≡ false) ⊎ Meets q d

-- A candidate that counts lies in the future.
abbrev Fits : Bool → Duration → Type 0
Fits c d = (c ≡ false) ⊎ (pos 0 <ℤ d)

sooner_if-IsTimely :
    (c : Bool) (q d : Duration) → IsTimely q → Fits c d → IsTimely (sooner_if c q d)
unfolding sooner_if sooner
sooner_if-IsTimely c q d s p = ground arith

-- A step is no later than what was set before.
sooner_if-keeps :
    (c b : Bool) (q d e : Duration) → Fits c d → Asks b e q → Asks b e (sooner_if c q d)
unfolding sooner_if sooner
sooner_if-keeps c b q d e p m = ground arith

-- And it meets the candidate that it adds.
sooner_if-adds : (c : Bool) (q d : Duration) → IsTimely q → Fits c d → Asks c d (sooner_if c q d)
unfolding sooner_if sooner
sooner_if-adds c q d s p = ground arith

idle_recheck_interval-positive :
    (bp : BuildProject) (now : Time) (limit : Duration)
    → pos 0 <ℤ idle_recheck_interval bp now limit
unfolding idle_recheck_interval
idle_recheck_interval-positive bp now limit = ground arith

counts : (d : Duration) → Fits (ltb_ℤ (pos 0) d) d
counts d = ground arith

half_minute : (c : Bool) → Fits c drain_recheck_interval
half_minute c = inr (ground arith)

module _ (r : Settings) (p : Passed) where
  abbrev pub is_warming : Bool
  is_warming = (p.desired == 1) && ltb_ℤ p.ready (pos 1)

  abbrev pub is_warm : Bool
  is_warm = (p.desired == 1) && not (bytes_eq p.project.spec.tier tier_hot)

  idle_requeue-IsTimely : IsTimely (idle_requeue r p)
  unfolding idle_requeue
  idle_requeue-IsTimely =
      ground (arith, idle_recheck_interval-positive p.project p.at_recheck (adaptive_idle_max r))

  idle_requeue-Asks :
      Asks is_warm
        (idle_recheck_interval p.project p.at_recheck (adaptive_idle_max r))
        (idle_requeue r p)
  unfolding idle_requeue
  idle_requeue-Asks =
      ground (arith, idle_recheck_interval-positive p.project p.at_recheck (adaptive_idle_max r))

  -- The looks that are due.
  pub record IsPrompt (q : Duration) : Type 0 where
    pub is_set : IsTimely q
    pub idle : Asks is_warm (idle_recheck_interval p.project p.at_recheck (adaptive_idle_max r)) q
    pub warming : Asks is_warming scaling_recheck_interval q
    pub snapshot : Asks (ltb_ℤ (pos 0) p.snap_after) p.snap_after q
    pub expiry :
        Asks (ltb_ℤ (pos 0) (until_expiry r p.at_until p.live)) (until_expiry r p.at_until p.live) q
    pub pruning : Asks p.prune_pending drain_recheck_interval q
    pub held : Asks p.roll_held drain_recheck_interval q

  -- The requeue of Reconcile is 0 or positive, and it is positive and no later than each of these
  -- that applies: the idle re-check of a wanted daemon that is not hot, thirty seconds for a
  -- wanted daemon that is not ready, the next snapshot, the expiry of the oldest live entry, and
  -- thirty seconds for a clone left in place or a roll that is held.
  pub requeue_after-IsPrompt : IsPrompt (requeue_after r p)
  unfolding requeue_after
  requeue_after-IsPrompt =
      let i = idle_recheck_interval p.project p.at_recheck (adaptive_idle_max r) in
      let w = is_warming in
      let n = p.snap_after in
      let x = until_expiry r p.at_until p.live in
      let cn = ltb_ℤ (pos 0) n in
      let cx = ltb_ℤ (pos 0) x in
      let half = drain_recheck_interval in
      let fw = half_minute w in
      let fp = half_minute p.prune_pending in
      let fh = half_minute p.roll_held in
      let s0 = idle_requeue r p in
      let s1 = sooner_if w s0 half in
      let s2 = sooner_if cn s1 n in
      let s3 = sooner_if cx s2 x in
      let s4 = sooner_if p.prune_pending s3 half in
      let set1 = sooner_if-IsTimely w s0 half idle_requeue-IsTimely fw in
      let set2 = sooner_if-IsTimely cn s1 n set1 (counts n) in
      let set3 = sooner_if-IsTimely cx s2 x set2 (counts x) in
      let set4 = sooner_if-IsTimely p.prune_pending s3 half set3 fp in
      let s5 = sooner_if p.roll_held s4 half in
      let keep5 : (b : Bool) (e : Duration) → Asks b e s4 → Asks b e s5 =
        λ b e m. sooner_if-keeps p.roll_held b s4 half e fh m in
      let keep4 : (b : Bool) (e : Duration) → Asks b e s3 → Asks b e s5 =
        λ b e m. keep5 b e (sooner_if-keeps p.prune_pending b s3 half e fp m) in
      let keep3 : (b : Bool) (e : Duration) → Asks b e s2 → Asks b e s5 =
        λ b e m. keep4 b e (sooner_if-keeps cx b s2 x e (counts x) m) in
      let keep2 : (b : Bool) (e : Duration) → Asks b e s1 → Asks b e s5 =
        λ b e m. keep3 b e (sooner_if-keeps cn b s1 n e (counts n) m) in
      record {
        is_set = sooner_if-IsTimely p.roll_held s4 half set4 fh;
        idle = keep2 is_warm i (sooner_if-keeps w is_warm s0 half i fw idle_requeue-Asks);
        warming = keep2 w half (sooner_if-adds w s0 half idle_requeue-IsTimely fw);
        snapshot = keep3 cn n (sooner_if-adds cn s1 n set1 (counts n));
        expiry = keep4 cx x (sooner_if-adds cx s2 x set2 (counts x));
        pruning = keep5 p.prune_pending half (sooner_if-adds p.prune_pending s3 half set3 fp);
        held = sooner_if-adds p.roll_held s4 half set4 fh;
      }
