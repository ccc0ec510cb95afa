-- ===== src/Companion/Usage.antt =====
-- `statInodes` of cmd/companion/inode.go: what is in use is what is not free, and at most what there is.
use native.Mathlib.Nat.{mod-eq_of_lt, add-mul}
use buildkit_operator.Base.{
  ℕ, ◌+◌, ◌-◌, ◌*◌, ◌%◌, ◌^◌, ◌≤◌, ◌<◌, ◌≡◌, refl, sym, ap, ◌∙◌, ◌⊎◌, inl, inr, leb, arith,
  Bool-cases,
}
use buildkit_operator.Controller.Autogrow.{FloatOps}
use buildkit_operator.Companion.{StatFs, InodeStats, minus_64, in_use, stat_inodes}

-- The fields are `uint64`, and the size in bytes is one too.
pub record IsMachine (st : StatFs) : Type 0 where
  pub files_64 : st.files < 2 ^ 64
  pub ffree_64 : st.ffree < 2 ^ 64
  pub blocks_64 : st.blocks < 2 ^ 64
  pub bfree_64 : st.bfree < 2 ^ 64
  pub size_64 : st.blocks * st.bsize < 2 ^ 64

-- The units in use and those that are free make up the total; where more is said to be free than there
-- is, none is in use.
abbrev pub IsUsed : ℕ → ℕ → ℕ → Type 0
IsUsed total free used = (used + free ≡ total) ⊎ ((total < free) × (used ≡ 0))

pub record IsExact {F : Type 0} (st : StatFs) (s : InodeStats F) : Type 0 where
  pub total : s.total ≡ st.files
  pub inodes : IsUsed st.files st.ffree s.used
  pub bytes_total : s.bytes_total ≡ st.blocks * st.bsize
  pub bytes :
      (s.bytes_used + st.bfree * st.bsize ≡ st.blocks * st.bsize)
      ⊎ ((st.blocks < st.bfree) × (s.bytes_used ≡ 0))

the_blocks : (n m : ℕ) → m ≤ n → n - m + m ≡ n
the_blocks n m h = omega (arith, h)

minus_64-minus : (a b : ℕ) → b ≤ a → a < 2 ^ 64 → minus_64 a b ≡ a - b
minus_64-minus a b h small = omega (arith, h, small)

in_use-IsUsed : (total free : ℕ) → total < 2 ^ 64 → IsUsed total free (in_use total free)
in_use-IsUsed total free small = elim (Bool-cases (leb free total)) [
  | inl fits ↦
      let h : free ≤ total = ground arith in
      rw fits (inl (omega (arith, minus_64-minus total free h small, h)))
  | inr torn ↦ rw torn (inr (ground arith, refl))
]

-- The bytes of the blocks that are in use, and of the free ones.
bytes_whole :
    (st : StatFs)
    → IsMachine st
    → st.bfree ≤ st.blocks
    → (minus_64 st.blocks st.bfree * st.bsize) % (2 ^ 64) + st.bfree * st.bsize
      ≡ st.blocks * st.bsize
bytes_whole st m h =
    let used = st.blocks - st.bfree in
    let split : used * st.bsize + st.bfree * st.bsize ≡ st.blocks * st.bsize =
      sym (add-mul used st.bfree st.bsize)
      ∙ ap (λ (n : ℕ). n * st.bsize) (the_blocks st.blocks st.bfree h) in
    let exact : used * st.bsize % (2 ^ 64) ≡ used * st.bsize =
      mod-eq_of_lt (omega (arith, split, m.size_64)) in
    rw (minus_64-minus st.blocks st.bfree h m.blocks_64, exact) split

-- For a file system whose fields and whose size in bytes fit in 64 bits, the inodes that
-- statInodes says are in use and those that are free make up the total, and so do the bytes, with
-- the exact products; only where more is said to be free than there is, none is in use. The
-- differences and products of the code wrap at 64 bits.
pub stat_inodes-IsExact :
    {F : Type 0} (ops : FloatOps F) (st : StatFs) → IsMachine st → IsExact st (stat_inodes ops st)
unfolding stat_inodes
stat_inodes-IsExact ops st m = record {
  total = refl;
  inodes = in_use-IsUsed st.files st.ffree m.files_64;
  bytes_total = mod-eq_of_lt m.size_64;
  bytes = elim (Bool-cases (leb st.bfree st.blocks)) [
    | inl fits ↦ rw fits (inl (bytes_whole st m (ground arith)))
    | inr torn ↦ rw torn (inr (ground arith, refl))
  ];
}
