-- ===== src/Base/Text.antt =====
-- Go strings as lists of bytes: comparison, prefixes and suffixes, trimming, decimal numbers.
use Prim.Native.Char.{code}
use Prim.Native.String.{String}
use Prim.Native.Nat.{ℕ, zero, suc, ◌+◌, ◌-◌, ◌/◌, ◌%◌, ◌≤◌}
use mathlib.Core.Path.{◌≡◌, refl, sym, ap, ◌∙◌}
use mathlib.Core.Logic.{◌↔◌, inl, inr}
use mathlib.Core.Bool.{Bool, true, false, ◌&&◌, ◌||◌}
use mathlib.Core.List.{List, [], ◌∷◌, ◌++◌, map}
use mathlib.Core.Option.{Option, none, some}
use native.Mathlib.Omega.{arith}
use buildkit_operator.Base.Tests.{ltb, leb, ◌==◌, if◌then◌else◌, Bool-cases}
use buildkit_operator.Base.Lists.{
  length, take, drop, take-append-drop, length-append, drop-append_length, take-append_length,
  drop-append_add,
}
use buildkit_operator.Base.Int.{ℤ, pos, negsuc}

abbrev pub Bytes : Type 0
Bytes = List ℕ

-- The bytes of an ASCII literal.
abbrev pub text : String → Bytes
text String.[] = []
text (String.◌∷◌ c s) = code c ∷ text s

-- `a == b` on strings.
unfoldable pub bytes_eq : Bytes → Bytes → Bool
bytes_eq [] [] = true
bytes_eq (x ∷ xs) (y ∷ ys) = x == y && bytes_eq xs ys
bytes_eq _ _ = false

pub bytes_eq_iff : (a b : Bytes) → (bytes_eq a b ≡ true) ↔ (a ≡ b)
unfolding bytes_eq
bytes_eq_iff (x ∷ a) (y ∷ b) = ground (arith, bytes_eq_iff a b)
bytes_eq_iff _ _ = ground arith

pub bytes_eq_refl : (a : Bytes) → bytes_eq a a ≡ true
bytes_eq_refl a = (bytes_eq_iff a a).1 refl

-- `strings.HasPrefix(s, p)`.
unfoldable pub has_prefix : Bytes → Bytes → Bool
has_prefix s [] = true
has_prefix [] (y ∷ ys) = false
has_prefix (x ∷ xs) (y ∷ ys) = x == y && has_prefix xs ys

pub has_prefix-append : (p s : Bytes) → has_prefix (p ++ s) p ≡ true
unfolding has_prefix
has_prefix-append [] s = refl
has_prefix-append (x ∷ p) s = ground (arith, has_prefix-append p s)

-- A string with a prefix is the prefix and the rest.
pub has_prefix-splits : (s p : Bytes) → has_prefix s p ≡ true → s ≡ p ++ drop (length p) s
unfolding has_prefix
has_prefix-splits s [] h = refl
has_prefix-splits [] (y ∷ ys) h = cc
has_prefix-splits (x ∷ xs) (y ∷ ys) h = ground (arith, has_prefix-splits xs ys)

-- `strings.TrimPrefix(s, p)`.
unfoldable pub trim_prefix : Bytes → Bytes → Bytes
unfolding has_prefix
trim_prefix s p = if has_prefix s p then drop (length p) s else s

-- `strings.CutSuffix(s, p)` and `strings.TrimSuffix(s, p)`.
unfoldable pub cut_suffix : Bytes → Bytes → Option Bytes
unfolding bytes_eq
cut_suffix s p =
    let n = length s - length p in
    if leb (length p) (length s) && bytes_eq (drop n s) p then some (take n s) else none

unfoldable pub trim_suffix : Bytes → Bytes → Bytes
trim_suffix s p = elim (cut_suffix s p) [ none ↦ s | some t ↦ t ]

pub cut_suffix-append : (s p : Bytes) → cut_suffix (s ++ p) p ≡ some s
unfolding cut_suffix
cut_suffix-append s p =
    let sized = length-append s p in
    let n : length (s ++ p) - length p ≡ length s = omega (arith, sized) in
    rw (n, drop-append_length s p, take-append_length s p, bytes_eq_refl p) (ground (arith, sized))

-- What is left of a text whose suffix is cut.
pub cut_suffix-splits : (s p t : Bytes) → cut_suffix s p ≡ some t → s ≡ t ++ p
unfolding cut_suffix
cut_suffix-splits s p t e =
    let n = length s - length p in
    elim (Bool-cases (leb (length p) (length s) && bytes_eq (drop n s) p)) [
      | inl ends ↦
          let cut : cut_suffix s p ≡ some (take n s) = rw ends refl in
          let same : take n s ≡ t = cc in
          let tail : drop n s ≡ p = (bytes_eq_iff (drop n s) p).0 (ground arith) in
          sym (take-append-drop n s)
          ∙ ap (λ (x : Bytes). x ++ drop n s) same
          ∙ ap (λ (x : Bytes). t ++ x) tail
      | inr other ↦ let none_cut : cut_suffix s p ≡ none = rw other refl in absurd cc
    ]

-- A suffix no longer than the last part is looked for in that part.
pub cut_suffix_miss :
    (s p q : Bytes)
    → length q ≤ length p
    → bytes_eq (drop (length p - length q) p) q ≡ false
    → cut_suffix (s ++ p) q ≡ none
unfolding cut_suffix
cut_suffix_miss s p q h e =
    let n : length (s ++ p) - length q ≡ length s + (length p - length q) =
      omega (arith, length-append s p) in
    rw (n, drop-append_add s p (length p - length q), e) (ground arith)

-- `strings.ToLower` on ASCII letters; other bytes stay.
unfoldable pub lower_byte : ℕ → ℕ
lower_byte c = if leb b'A' c && leb c b'Z' then c + 32 else c

unfoldable pub to_lower : Bytes → Bytes
unfolding lower_byte
to_lower s = map lower_byte s

-- ASCII white space, as `strings.TrimSpace` cuts it off.
unfoldable pub is_space : ℕ → Bool
is_space c = c == b' ' || (leb 9 c && leb c 13)

unfoldable pub trim_left : Bytes → Bytes
unfolding is_space
trim_left [] = []
trim_left (c ∷ cs) = if is_space c then trim_left cs else c ∷ cs

unfoldable pub trim_right : Bytes → Bytes
unfolding is_space
trim_right [] = []
trim_right (c ∷ cs) = elim (trim_right cs) [
  | [] ↦ if is_space c then [] else c ∷ []
  | d ∷ ds ↦ c ∷ d ∷ ds
]

unfoldable pub trim_space : Bytes → Bytes
unfolding trim_left trim_right
trim_space s = trim_right (trim_left s)

-- `strconv.Itoa`: the decimal digits of a number, with fuel that `itoa` gives in full.
unfoldable pub digits : ℕ → ℕ → Bytes
digits zero n = []
digits (suc f) n =
    let front = digits f (n / 10) in
    if ltb n 10 then (b'0' + n) ∷ [] else front ++ ((b'0' + n % 10) ∷ [])

unfoldable pub itoa_ℕ : ℕ → Bytes
unfolding digits
itoa_ℕ n = digits (suc n) n

unfoldable pub itoa : ℤ → Bytes
unfolding itoa_ℕ
itoa (pos n) = itoa_ℕ n
itoa (negsuc n) = b'-' ∷ itoa_ℕ (suc n)

-- Lower-case hexadecimal, as `hex.EncodeToString` writes it.
unfoldable pub hex_digit : ℕ → ℕ
hex_digit n = if ltb n 10 then b'0' + n else b'a' + (n - 10)

unfoldable pub hex_encode : Bytes → Bytes
unfolding hex_digit
hex_encode [] = []
hex_encode (b ∷ bs) = hex_digit (b / 16) ∷ hex_digit (b % 16) ∷ hex_encode bs

-- `strings.TrimRight(s, "/")`.
unfoldable pub trim_right_slashes : Bytes → Bytes
trim_right_slashes [] = []
trim_right_slashes (c ∷ cs) = elim (trim_right_slashes cs) [
  | [] ↦ if c == b'/' then [] else c ∷ []
  | d ∷ ds ↦ c ∷ d ∷ ds
]
