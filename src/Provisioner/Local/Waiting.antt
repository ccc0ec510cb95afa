-- ===== src/Provisioner/Local/Waiting.antt =====
-- `WaitReady` of internal/provisioner/local/local.go: the loop over `Ready`, and what `Endpoint` says behind it.
use buildkit_operator.Base.{
  ℕ, zero, suc, ◌+◌, ◌*◌, ◌/◌, ◌≤◌, ◌<◌, ◌≡◌, refl, ap, ◌∙◌, inl, inr, Bool, true, false,
  if◌then◌else◌, ltb, ltb→lt, ℤ, pos, Option, none, some, ◌++◌, is_empty, Bytes, text,
  bytes_eq_refl, Time, Duration, time_add, second, lookup, lookup-insert, subst, arith, Bool-cases,
  Option-cases,
}
use buildkit_operator.Router.{daemon_name, endpoint_host}
use buildkit_operator.Provisioner.Local.{
  ProjectState, Projects, set_ip, Addressing, resolver, domain, instance_ip, join_host_port,
  endpoint_local, ReadyAnswers, ready_local,
}

-- One round of the loop: what its `Ready` is answered, the clock after it, and whether the caller is gone
-- before the next round.
pub record Round : Type 0 where
  pub answers : ReadyAnswers
  pub now : Time
  pub cancelled : Bool

pub data WaitedLocal : Type 0 where
  up too_late left : WaitedLocal

-- `WaitReady` from the round `i` on, with the projects that it leaves; `none` if it is still waiting.
unfoldable pub wait_rounds_local :
    Addressing → ℤ → Bytes → ℕ → ℕ → (ℕ → Round) → Time → Projects → Projects × Option WaitedLocal
wait_rounds_local how port key zero i rounds deadline m = (m, none)
wait_rounds_local how port key (suc n) i rounds deadline m =
    let (m', is_up) = ready_local how port key (rounds i).answers m in
    let later = wait_rounds_local how port key n (i + 1) rounds deadline m' in
    if is_up
    then (m', some up)
    else if ltb deadline (rounds i).now
    then (m', some too_late)
    else if (rounds i).cancelled
    then (m', some left)
    else later

unfoldable pub wait_ready_local :
    Addressing
    → ℤ
    → Bytes
    → Duration
    → ℕ
    → Time
    → (ℕ → Round)
    → Projects
    → Projects × Option WaitedLocal
wait_ready_local how port key wait n started rounds m =
    wait_rounds_local how port key n 0 rounds (time_add started wait) m

-- The project of the key is registered.
abbrev pub IsRegistered : Bytes → Projects → Type 0
IsRegistered key m = (st : ProjectState) × (lookup key m ≡ some st)

-- `Endpoint` gives an address on which the daemon answered.
abbrev pub Reaches : Addressing → ℤ → Bytes → ReadyAnswers → Projects → Type 0
Reaches how port key a m =
    (addr : Bytes) × (a.dials addr ≡ true) × (endpoint_local how port key m ≡ text "tcp://" ++ addr)

-- What `Ready` leaves: the project, and the way to its daemon if it is up.
abbrev Readies : Addressing → ℤ → Bytes → ReadyAnswers → Projects × Bool → Type 0
Readies how port key a r = IsRegistered key r.0 × (r.1 ≡ true → Reaches how port key a r.0)

set_ip-registered :
    (key ip : Bytes) (m : Projects) (st : ProjectState)
    → lookup key m ≡ some st
    → lookup key (set_ip key ip m) ≡ some (record st { ip = ip })
unfolding set_ip
set_ip-registered key ip m st there =
    rw (there, set_ip) (lookup-insert key key _ m ∙ rw (bytes_eq_refl key))

module _ (port : ℤ) (key : Bytes) where
  ready_local-Readies_ip :
      (a : ReadyAnswers) (m : Projects) (st : ProjectState) (ip : Bytes)
      → lookup key m ≡ some st
      → Readies instance_ip port key a (set_ip key ip m, a.dials (join_host_port ip port))
  unfolding endpoint_local endpoint_host
  ready_local-Readies_ip a m st ip there =
      let kept = set_ip-registered key ip m st there in
      ((record st { ip = ip }, kept), λ dialled. (join_host_port ip port, dialled, rw kept refl))

  ready_local-Readies :
      (how : Addressing) (a : ReadyAnswers) (m : Projects)
      → IsRegistered key m
      → Readies how port key a (ready_local how port key a m)
  unfolding ready_local endpoint_local endpoint_host
  ready_local-Readies (resolver addr) a m there = elim (Option-cases a.running) [
    | inl unknown ↦ rw unknown (there, λ h. absurd cc)
    | inr (true, runs) ↦ rw runs (there, λ dialled. (addr key, dialled, refl))
    | inr (false, stopped) ↦ rw stopped (there, λ h. absurd cc)
  ]
  ready_local-Readies (domain d) a m there = elim (Option-cases a.running) [
    | inl unknown ↦ rw unknown (there, λ h. absurd cc)
    | inr (true, runs) ↦ rw runs (
      there,
      λ dialled. (join_host_port (daemon_name key ++ (text "." ++ d)) port, dialled, refl),
    )
    | inr (false, stopped) ↦ rw stopped (there, λ h. absurd cc)
  ]
  ready_local-Readies instance_ip a m (st, there) = elim (Option-cases a.running) [
    | inl unknown ↦ rw unknown ((st, there), λ h. absurd cc)
    | inr (false, stopped) ↦ rw stopped ((st, there), λ h. absurd cc)
    | inr (true, runs) ↦ rw runs (elim (Option-cases a.ip) [
      | inl unknown ↦ rw unknown ((st, there), λ h. absurd cc)
      | inr (ip, known) ↦ rw known (elim (Bool-cases (is_empty ip)) [
        | inl blank ↦ rw blank ((st, there), λ h. absurd cc)
        | inr given ↦ rw given (ready_local-Readies_ip a m st ip there)
      ])
    ])
  ]

module _ (how : Addressing) (port : ℤ) (key : Bytes) (rounds : ℕ → Round) (deadline : Time)
    (begun : Projects) where
  -- The projects before a round, if the loop gets there, and whether its `Ready` says yes.
  abbrev pub before : ℕ → Projects
  before zero = begun
  before (suc i) = (ready_local how port key (rounds i).answers (before i)).0

  abbrev pub is_up : ℕ → Bool
  is_up i = (ready_local how port key (rounds i).answers (before i)).1

  -- A round behind which the loop goes on.
  abbrev pub GoesOn : ℕ → Type 0
  GoesOn i = (is_up i ≡ false) × ((rounds i).now ≤ deadline) × ((rounds i).cancelled ≡ false)

  -- What an answer of the loop says of the round that it came in.
  abbrev pub MeansLocal : ℕ → WaitedLocal → Type 0
  MeansLocal i up = (is_up i ≡ true) × Reaches how port key (rounds i).answers (before (suc i))
  MeansLocal i too_late = (is_up i ≡ false) × (deadline < (rounds i).now)
  MeansLocal i left =
      (is_up i ≡ false) × ((rounds i).now ≤ deadline) × ((rounds i).cancelled ≡ true)

  -- The loop has ended in the first round behind which it does not go on, with the projects of that round.
  abbrev pub EndsLocal : Projects × Option WaitedLocal → Type 0
  EndsLocal (m, none) = ⊥
  EndsLocal (m, some w) =
      (i : ℕ) × MeansLocal i w × ((j : ℕ) → j < i → GoesOn j) × (m ≡ before (suc i))

  -- At least a second passes per round.
  abbrev pub IsTickingLocal : Time → Type 0
  IsTickingLocal started = (i : ℕ) → started + i * second ≤ (rounds i).now

  before-registered : IsRegistered key begun → (i : ℕ) → IsRegistered key (before i)
  before-registered there zero = there
  before-registered there (suc i) =
      (ready_local-Readies port key how (rounds i).answers (before i) (before-registered there i)).0

  next-GoesOn : (i : ℕ) → ((j : ℕ) → j < i → GoesOn j) → GoesOn i → (j : ℕ) → j < i + 1 → GoesOn j
  next-GoesOn i earlier here j h = elim (Bool-cases (ltb j i)) [
    | inl less ↦ earlier j (ltb→lt _ _ less)
    | inr not_less ↦ let same : i ≡ j = ground (arith, h) in subst (λ (k : ℕ). GoesOn k) same here
  ]

  wait_rounds_local-Ends :
      (started n i : ℕ)
      → IsRegistered key begun
      → IsTickingLocal started
      → ((j : ℕ) → j < i → GoesOn j)
      → deadline + second < started + (n + i) * second
      → 0 < n
      → EndsLocal (wait_rounds_local how port key n i rounds deadline (before i))
  unfolding wait_rounds_local
  wait_rounds_local-Ends started zero i there ticking earlier h p = absurd (omega arith)
  wait_rounds_local-Ends started (suc n) i there ticking earlier h p =
      let reached =
        (ready_local-Readies port key how (rounds i).answers (before i)
          (before-registered there i)).1 in
      elim (Bool-cases (is_up i)) [
        | inl serving ↦ rw serving (i, (serving, reached serving), earlier, refl)
        | inr down ↦ rw down (elim (Bool-cases (ltb deadline (rounds i).now)) [
          | inl late ↦ rw late (i, (down, ltb→lt _ _ late), earlier, refl)
          | inr early ↦
              let in_time : (rounds i).now ≤ deadline = ground arith in
              rw early (elim (Bool-cases (rounds i).cancelled) [
                | inl gone ↦ rw gone (i, (down, in_time, gone), earlier, refl)
                | inr patient ↦
                    let next : deadline + second < started + (n + (i + 1)) * second = omega arith in
                    let more : 0 < n = omega (arith, ticking i) in
                    let one : i + 1 ≡ suc i = omega arith in
                    rw patient (
                      subst
                        (λ (m : Projects).
                          EndsLocal (wait_rounds_local how port key n (i + 1) rounds deadline m))
                        (ap before one)
                        (wait_rounds_local-Ends started n (i + 1) there ticking
                          (next-GoesOn i earlier (down, in_time, patient)) next more))
              ])
        ])
      ]

-- For a registered project and rounds that are at least a second apart, WaitReady of the single
-- host ends within the seconds of its budget and two more rounds, in the first round in which
-- Ready says yes, the deadline is past or the caller is gone: with success if Ready says yes, and
-- then Endpoint gives an address on which the daemon answered in that round; with the timeout if
-- Ready says no and the deadline is past in that round; with the cancellation if neither is so and
-- the caller is gone. In every round before, Ready said no, the deadline was not past and the
-- caller not gone, and the projects that it leaves are those that the rounds up to that one made.
pub wait_ready_local-Ends :
    (how : Addressing) (port : ℤ) (key : Bytes) (d : ℕ) (started : Time) (rounds : ℕ → Round)
    (m : Projects)
    → IsRegistered key m
    → IsTickingLocal how port key rounds (time_add started (pos d)) m started
    → EndsLocal how port key rounds
        (time_add started (pos d))
        m
        (wait_ready_local how port key (pos d) (d / second + 2) started rounds m)
unfolding wait_ready_local time_add
wait_ready_local-Ends how port key d started rounds m there ticking =
    wait_rounds_local-Ends how port key rounds (started + d) m started (d / second + 2) 0 there
      ticking (λ j h. absurd (omega arith)) (omega arith) (omega arith)
