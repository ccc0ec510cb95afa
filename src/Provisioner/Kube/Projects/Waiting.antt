-- ===== src/Provisioner/Kube/Projects/Waiting.antt =====
-- `WaitReady` of internal/provisioner/k8s/k8s.go ends, and what its answers mean.
use buildkit_operator.Base.{
  ℕ, zero, suc, ◌+◌, ◌*◌, ◌/◌, ◌≤◌, ◌<◌, ◌≡◌, inl, inr, true, false, ltb, ltb→lt, pos, Option, none,
  some, Time, time_add, second, arith, Bool-cases,
}
use buildkit_operator.Provisioner.Kube.Projects.{
  Config, Poll, Waited, ready, timed_out, gave_up, is_ready, wait_rounds, wait_ready,
}

-- What an answer of the loop says of the round that it came in.
abbrev pub Means : (ℕ → Poll) → Time → ℕ → Waited → Type 0
Means polls deadline i ready = is_ready (polls i).answer ≡ true
Means polls deadline i timed_out = (is_ready (polls i).answer ≡ false) × (deadline < (polls i).now)
Means polls deadline i gave_up =
    (is_ready (polls i).answer ≡ false) × ((polls i).now ≤ deadline) × ((polls i).cancelled ≡ true)

-- The loop has ended in a round that means its answer.
abbrev pub Ends : (ℕ → Poll) → Time → Option Waited → Type 0
Ends polls deadline none = ⊥
Ends polls deadline (some w) = (i : ℕ) × Means polls deadline i w

-- The clock of a round: two seconds pass between one round and the next.
abbrev pub IsTicking : (ℕ → Poll) → Time → Type 0
IsTicking polls started = (i : ℕ) → started + i * (2 * second) ≤ (polls i).now

wait_rounds-Ends :
    (polls : ℕ → Poll) (started deadline n i : ℕ)
    → IsTicking polls started
    → deadline + 2 * second < started + (n + i) * (2 * second)
    → 0 < n
    → Ends polls deadline (wait_rounds n i polls deadline)
unfolding wait_rounds
wait_rounds-Ends polls started deadline zero i ticking h p = absurd (omega arith)
wait_rounds-Ends polls started deadline (suc n) i ticking h p =
    elim (Bool-cases (is_ready (polls i).answer)) [
      | inl up ↦ rw up (i, up)
      | inr down ↦ rw down (elim (Bool-cases (ltb deadline (polls i).now)) [
        | inl late ↦ rw late (i, (down, ltb→lt _ _ late))
        | inr early ↦
            let in_time : (polls i).now ≤ deadline = ground arith in
            rw early (elim (Bool-cases (polls i).cancelled) [
              | inl gone ↦ rw gone (i, (down, in_time, gone))
              | inr patient ↦
                  let next : deadline + 2 * second < started + (n + (i + 1)) * (2 * second) =
                    omega arith in
                  let left : 0 < n = omega (arith, ticking i) in
                  rw patient (wait_rounds-Ends polls started deadline n (i + 1) ticking next left)
            ])
      ])
    ]

-- If rounds are two seconds apart, WaitReady ends within the budget's number of two-second rounds
-- and two more, with ready in a round whose read shows a serving daemon, with a timeout in a round
-- that is past the deadline and not ready, or with the caller gone in a round that is neither.
pub wait_ready-Ends :
    (c : Config) (d : ℕ) (started : Time) (polls : ℕ → Poll)
    → c.wait ≡ pos d
    → IsTicking polls started
    → Ends polls (time_add started c.wait) (wait_ready (d / (2 * second) + 2) c started polls)
unfolding wait_ready time_add
wait_ready-Ends c d started polls budget ticking = rw budget (
    wait_rounds-Ends polls started (started + d) (d / (2 * second) + 2) 0 ticking (omega arith)
      (omega arith))
