-- ===== src/Controller/Autogrow/Gate.antt =====
-- `probeGate.allow` of internal/controller/autogrow.go, call after call.
use buildkit_operator.Base.{
  ℕ, ◌+◌, ◌≡◌, ◌≤◌, ◌<◌, true, false, pos, ltb, Bytes, bytes_eq, bytes_eq_refl, max_duration, Time,
  Duration, not, time_sub-lt, arith,
}
use buildkit_operator.Controller.Autogrow.{ProbeGate, last_action, allow}

-- After a gate has let a key through, a second call with a positive interval up to the largest
-- duration lets it through exactly if that interval has passed.
pub allow_spaced :
    (gate : ProbeGate) (key : Bytes) (t u w : ℕ)
    → 0 < w
    → w ≤ max_duration
    → (allow gate key t (pos w)).0 ≡ true
    → (allow (allow gate key t (pos w)).1 key u (pos w)).0 ≡ not (ltb u (t + w))
unfolding allow last_action
allow_spaced gate key t u w p h first = ground (arith, bytes_eq_refl key, time_sub-lt u t w h p)

pub allow_apart :
    (gate : ProbeGate) (key other : Bytes) (t : Time) (interval : Duration)
    → bytes_eq key other ≡ false
    → last_action (allow gate key t interval).1 other ≡ last_action gate other
unfolding allow last_action
allow_apart gate key other t interval apart = ground arith
