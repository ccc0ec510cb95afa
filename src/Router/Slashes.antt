-- ===== src/Router/Slashes.antt =====
-- The loop of `NormalizeRepo` that collapses runs of slashes.
use buildkit_operator.Base.{
  ℕ, zero, suc, ◌≤◌, ◌<◌, ◌≡◌, refl, sym, ◌∙◌, true, false, ◌&&◌, ◌==◌, if◌then◌else◌, [], ◌∷◌,
  length, Bytes, arith, Bool-cases, inl, inr,
}
use buildkit_operator.Router.{has_double_slash, halve_slashes, collapse_slashes}

-- `c` in front of a text that has no run of slashes.
abbrev pub join_slash : ℕ → Bytes → Bytes
join_slash c [] = c ∷ []
join_slash c (d ∷ ds) = if c == b'/' && d == b'/' then d ∷ ds else c ∷ d ∷ ds

-- Each run of slashes is one slash.
abbrev pub squeeze : Bytes → Bytes
squeeze [] = []
squeeze (c ∷ cs) = join_slash c (squeeze cs)

length-halve_slashes_le : (s : Bytes) → length (halve_slashes s) ≤ length s
unfolding halve_slashes
length-halve_slashes_le [] = omega arith
length-halve_slashes_le (c ∷ []) = omega arith
length-halve_slashes_le (c ∷ d ∷ cs) =
    ground (arith, length-halve_slashes_le cs, length-halve_slashes_le (d ∷ cs))

length-halve_slashes : (s : Bytes) → has_double_slash s ≡ true → length (halve_slashes s) < length s
unfolding halve_slashes has_double_slash
length-halve_slashes [] h = cc
length-halve_slashes (c ∷ []) h = cc
length-halve_slashes (c ∷ d ∷ cs) h =
    ground (arith, length-halve_slashes_le cs, length-halve_slashes (d ∷ cs))

join_slash_slash : (s : Bytes) → join_slash b'/' (join_slash b'/' s) ≡ join_slash b'/' s
join_slash_slash [] = refl
join_slash_slash (c ∷ cs) = ground arith

squeeze-halve_slashes : (s : Bytes) → squeeze (halve_slashes s) ≡ squeeze s
unfolding halve_slashes
squeeze-halve_slashes [] = refl
squeeze-halve_slashes (c ∷ []) = refl
squeeze-halve_slashes (c ∷ d ∷ cs) = elim (Bool-cases (c == b'/' && d == b'/')) [
  | inl both ↦
      let ec : c ≡ b'/' = ground arith in
      let ed : d ≡ b'/' = ground arith in
      rw (ec, ed, squeeze-halve_slashes cs) (sym (join_slash_slash (squeeze cs)))
  | inr other ↦ rw (other, squeeze-halve_slashes (d ∷ cs))
]

pub squeeze_id : (s : Bytes) → has_double_slash s ≡ false → squeeze s ≡ s
unfolding has_double_slash
squeeze_id [] h = refl
squeeze_id (c ∷ []) h = refl
squeeze_id (c ∷ d ∷ cs) h =
    let later : has_double_slash (d ∷ cs) ≡ false = ground arith in
    let e = squeeze_id (d ∷ cs) later in rw e (ground arith)

has_double_slash-join_slash :
    (c : ℕ) (s : Bytes) → has_double_slash s ≡ false → has_double_slash (join_slash c s) ≡ false
unfolding has_double_slash
has_double_slash-join_slash c [] h = refl
has_double_slash-join_slash c (d ∷ ds) h = ground arith

has_double_slash-squeeze : (s : Bytes) → has_double_slash (squeeze s) ≡ false
unfolding has_double_slash
has_double_slash-squeeze [] = refl
has_double_slash-squeeze (c ∷ cs) =
    has_double_slash-join_slash c (squeeze cs) (has_double_slash-squeeze cs)

-- With at least as much fuel as bytes, the loop that collapses slashes ends on a text without a
-- double slash, and the text is the input with each run of slashes made one.
pub collapse_slashes-squeeze :
    (fuel : ℕ) (s : Bytes)
    → length s ≤ fuel
    → (collapse_slashes fuel s ≡ squeeze s) × (has_double_slash (collapse_slashes fuel s) ≡ false)
unfolding collapse_slashes
collapse_slashes-squeeze zero [] h = (refl, unfold has_double_slash in refl)
collapse_slashes-squeeze zero (c ∷ cs) h = absurd (omega arith)
collapse_slashes-squeeze (suc fuel) s h = elim (Bool-cases (has_double_slash s)) [
  | inl again ↦
      let shorter = length-halve_slashes s again in
      let (same, done) = collapse_slashes-squeeze fuel (halve_slashes s) (omega arith) in
      rw (again, collapse_slashes) (same ∙ squeeze-halve_slashes s, done)
  | inr done ↦ rw (done, collapse_slashes) (sym (squeeze_id s done), done)
]
