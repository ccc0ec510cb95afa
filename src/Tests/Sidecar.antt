-- ===== src/Tests/Sidecar.antt =====
-- Inputs for the theorems on the companion.
use buildkit_operator.Base.{
  ℕ, ℤ, ◌+◌, ◌*◌, ◌/◌, inl, false, true, ltb_ℤ, pos, time_add, second, arith,
}
use buildkit_operator.Controller.Autogrow.{FloatOps}
use buildkit_operator.Companion.{StatFs, stat_inodes, DrainRound, drain}
use buildkit_operator.Companion.Drain.{Drains, drain-Drains}
use buildkit_operator.Companion.Usage.{IsExact, stat_inodes-IsExact}

-- The done-file never appears.
abbrev rounds : ℕ → DrainRound
rounds i = record { is_done = false; now = 50 + i * (2 * second); cancelled = false }

drain-Drains_example :
    Drains rounds
      (time_add 50 (pos 120000000000))
      (drain (pos 120000000000) (120000000000 / (2 * second) + 2) 50 rounds)
drain-Drains_example = drain-Drains 120000000000 50 rounds (omega arith) (λ i. inl (omega arith))

-- Numbers without a fraction.
abbrev whole : FloatOps ℤ
whole = record {
  of_int = λ n. n;
  times = λ a b. a;
  over = λ a b. a;
  below = λ a b. ltb_ℤ a b;
  up_to = λ a b. true;
  ceil = λ a. a;
  to_int = λ a. a;
}

abbrev disk : StatFs
disk = record { files = 1000; ffree = 10; blocks = 5000; bfree = 700; bsize = 4096 }

stat_inodes-IsExact_example : IsExact disk (stat_inodes whole disk)
stat_inodes-IsExact_example = stat_inodes-IsExact whole disk (record {
  files_64 = omega arith;
  ffree_64 = omega arith;
  blocks_64 = omega arith;
  bfree_64 = omega arith;
  size_64 = omega arith;
})
