-- ===== src/Companion/Drain.antt =====
-- `drain` of cmd/companion/drain.go ends, and what it ends on.
use buildkit_operator.Base.{
  ℕ, zero, suc, ◌+◌, ◌*◌, ◌/◌, ◌≤◌, ◌<◌, ◌≡◌, ◌⊎◌, inl, inr, true, false, leb, pos, Option, none,
  some, Time, time_add, second, arith, Bool-cases,
}
use buildkit_operator.Companion.{
  DrainRound, Drained, done_file, elapsed, interrupted, drain_rounds, drain,
}

-- What an end says of the round that it came in.
abbrev pub EndsOn : (ℕ → DrainRound) → Time → ℕ → Drained → Type 0
EndsOn rounds deadline i done_file = (rounds i).is_done ≡ true
EndsOn rounds deadline i elapsed = ((rounds i).is_done ≡ false) × (deadline ≤ (rounds i).now)
EndsOn rounds deadline i interrupted =
    ((rounds i).is_done ≡ false) × ((rounds i).now < deadline) × ((rounds i).cancelled ≡ true)

abbrev pub Drains : (ℕ → DrainRound) → Time → Option Drained → Type 0
Drains rounds deadline none = ⊥
Drains rounds deadline (some d) = (i : ℕ) × EndsOn rounds deadline i d

-- A round sleeps two seconds, or until the deadline.
abbrev pub IsSleeping : (ℕ → DrainRound) → Time → Type 0
IsSleeping rounds deadline =
    (i : ℕ)
    → ((rounds i).now + 2 * second ≤ (rounds (i + 1)).now) ⊎ (deadline ≤ (rounds (i + 1)).now)

drain_rounds-Drains :
    (rounds : ℕ → DrainRound) (started deadline n i : ℕ)
    → IsSleeping rounds deadline
    → (started + i * (2 * second) ≤ (rounds i).now) ⊎ (deadline ≤ (rounds i).now)
    → deadline + 2 * second < started + (n + i) * (2 * second)
    → 0 < n
    → Drains rounds deadline (drain_rounds n i rounds deadline)
unfolding drain_rounds
drain_rounds-Drains rounds started deadline zero i sleeping at h p = absurd (omega arith)
drain_rounds-Drains rounds started deadline (suc n) i sleeping at h p =
    elim (Bool-cases (rounds i).is_done) [
      | inl done ↦ rw done (i, done)
      | inr going ↦ rw going (elim (Bool-cases (leb deadline (rounds i).now)) [
        | inl late ↦ rw late (i, (going, ground arith))
        | inr early ↦
            let in_time : (rounds i).now < deadline = ground arith in
            rw early (elim (Bool-cases (rounds i).cancelled) [
              | inl cut ↦ rw cut (i, (going, in_time, cut))
              | inr left ↦
                  let next : (started + (i + 1) * (2 * second) ≤ (rounds (i + 1)).now)
                      ⊎ (deadline ≤ (rounds (i + 1)).now) =
                    grind (arith, at, sleeping i) in
                  let bound : deadline + 2 * second < started + (n + (i + 1)) * (2 * second) =
                    omega arith in
                  let more : 0 < n = grind (arith, at) in
                  rw left
                    (drain_rounds-Drains rounds started deadline n (i + 1) sleeping next bound more)
            ])
      ])
    ]

-- If each round sleeps two seconds or until the deadline, drain ends within its budget's number of
-- two-second rounds and two more: in a round that sees the done-file, in one without it at or past
-- the deadline, or in one before the deadline and without it whose sleep is cut by the context.
pub drain-Drains :
    (d : ℕ) (started : Time) (rounds : ℕ → DrainRound)
    → started ≤ (rounds 0).now
    → IsSleeping rounds (time_add started (pos d))
    → Drains rounds (time_add started (pos d)) (drain (pos d) (d / (2 * second) + 2) started rounds)
unfolding drain time_add
drain-Drains d started rounds begun sleeping =
    drain_rounds-Drains rounds started (started + d) (d / (2 * second) + 2) 0 sleeping
      (inl (omega arith)) (omega arith) (omega arith)
