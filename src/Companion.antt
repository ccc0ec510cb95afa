-- ===== src/Companion.antt =====
-- cmd/companion: what the sidecar of a daemon publishes of its file system (inode.go), whether it is ready
-- (state.go), and how long it drains (drain.go). Floating-point numbers are a parameter.
pub mod Drain
pub mod Usage
use buildkit_operator.Base.{
  ℕ, zero, suc, ◌+◌, ◌-◌, ◌*◌, ◌%◌, ◌^◌, Bool, true, false, not, ltb, leb, ◌==◌, if◌then◌else◌, pos,
  Option, none, some, Time, Duration, time_add,
}
use buildkit_operator.Controller.Autogrow.{FloatOps}

-- What the code reads of `syscall.Statfs_t`.
pub record StatFs : Type 0 where
  pub files : ℕ
  pub ffree : ℕ
  pub blocks : ℕ
  pub bfree : ℕ
  pub bsize : ℕ

-- `inodeStats`.
pub record InodeStats (F : Type 0) : Type 0 where
  pub used : ℕ
  pub total : ℕ
  pub ratio : F
  pub bytes_used : ℕ
  pub bytes_total : ℕ
  pub bytes_ratio : F

-- A product of two `uint64`.
abbrev pub times_64 : ℕ → ℕ → ℕ
times_64 a b = (a * b) % (2 ^ 64)

-- A difference of two `uint64`, which wraps.
abbrev pub minus_64 : ℕ → ℕ → ℕ
minus_64 a b = (a + 2 ^ 64 - b) % (2 ^ 64)

-- A number of units in use, by those that are free.
abbrev pub in_use : ℕ → ℕ → ℕ
in_use total free = if leb free total then minus_64 total free else 0

-- What a check of the cache leaves: what is published, and whether the cache was pruned.
pub record InodeCheck (F : Type 0) : Type 0 where
  pub published : InodeStats F
  pub is_pruned : Bool

module _ {F : Type 0} (ops : FloatOps F) where
  abbrev pub ratio_of : ℕ → ℕ → F
  ratio_of used total =
      if ltb 0 total
      then ops.over (ops.of_int (pos used)) (ops.of_int (pos total))
      else ops.of_int (pos 0)

  -- `statInodes`, for the answer of `statfs`.
  unfoldable pub stat_inodes : StatFs → InodeStats F
  stat_inodes st =
      let used = in_use st.files st.ffree in
      let bytes_total = times_64 st.blocks st.bsize in
      let bytes_used =
        if leb st.bfree st.blocks then times_64 (minus_64 st.blocks st.bfree) st.bsize else 0 in
      record {
        used = used;
        total = st.files;
        ratio = ratio_of used st.files;
        bytes_used = bytes_used;
        bytes_total = bytes_total;
        bytes_ratio = ratio_of bytes_used bytes_total;
      }

  -- The sample that is published, or the old one if `statfs` fails.
  abbrev pub sampled : Option StatFs → InodeStats F → InodeStats F
  sampled none old = old
  sampled (some st) old = stat_inodes st

  -- `checkInodes`: the answers of `statfs` before and after the prune, and whether the prune succeeds.
  unfoldable pub check_inodes :
      F → Option StatFs → Bool → Option StatFs → InodeStats F → InodeCheck F
  check_inodes threshold before pruned after old = elim before [
    | none ↦ record { published = old; is_pruned = false }
    | some st ↦
        let stats = stat_inodes st in
        if ops.up_to stats.ratio threshold
        then record { published = stats; is_pruned = false }
        else record { published = if pruned then sampled after stats else stats; is_pruned = true }
  ]

-- `ready`: not while draining, else as the probe of the workers says.
unfoldable pub is_ready : Bool → Bool → Bool
is_ready draining probed = if draining then false else probed

-- One round of `drain`: is the done-file there, the clock, and is the context cancelled during the sleep?
pub record DrainRound : Type 0 where
  pub is_done : Bool
  pub now : Time
  pub cancelled : Bool

pub data Drained : Type 0 where
  done_file elapsed interrupted : Drained

-- `drain` from the round `i` on; `none` if it is still draining after so many rounds.
unfoldable pub drain_rounds : ℕ → ℕ → (ℕ → DrainRound) → Time → Option Drained
drain_rounds zero i rounds deadline = none
drain_rounds (suc n) i rounds deadline =
    let later = drain_rounds n (i + 1) rounds deadline in
    if (rounds i).is_done
    then some done_file
    else if leb deadline (rounds i).now
    then some elapsed
    else if (rounds i).cancelled
    then some interrupted
    else later

unfoldable pub drain : Duration → ℕ → Time → (ℕ → DrainRound) → Option Drained
drain budget n started rounds = drain_rounds n 0 rounds (time_add started budget)
