-- ===== src/Base/Decimal.antt =====
-- Decimal numbers: what `strconv.Itoa` writes can be read back, and ends where the digits end.
use Prim.Native.Nat.{ℕ, zero, suc, ◌+◌, ◌-◌, ◌*◌, ◌/◌, ◌%◌, ◌<◌}
use mathlib.Core.Path.{◌≡◌, refl, sym, ap, ◌∙◌}
use mathlib.Core.Logic.{inl, inr}
use mathlib.Core.Bool.{Bool, true, false, ◌&&◌}
use mathlib.Core.List.{[], ◌∷◌, ◌++◌}
use native.Mathlib.Omega.{arith}
use buildkit_operator.Base.Tests.{ltb, leb, Bool-cases}
use buildkit_operator.Base.Text.{Bytes, digits, itoa_ℕ}

abbrev pub is_digit : ℕ → Bool
is_digit c = leb b'0' c && leb c b'9'

abbrev pub all_digits : Bytes → Bool
all_digits [] = true
all_digits (c ∷ cs) = is_digit c && all_digits cs

-- The number that digits stand for, behind those read already.
abbrev pub value : ℕ → Bytes → ℕ
value acc [] = acc
value acc (c ∷ cs) = value (acc * 10 + (c - b'0')) cs

value-append : (acc : ℕ) (s t : Bytes) → value acc (s ++ t) ≡ value (value acc s) t
value-append acc [] t = refl
value-append acc (c ∷ cs) t = value-append (acc * 10 + (c - b'0')) cs t

all_digits-append_digit :
    (s : Bytes) (d : ℕ)
    → all_digits s ≡ true
    → is_digit d ≡ true
    → all_digits (s ++ (d ∷ [])) ≡ true
all_digits-append_digit [] d h k = ground arith
all_digits-append_digit (c ∷ cs) d h k = ground (arith, all_digits-append_digit cs d)

pub value-digits : (f n : ℕ) → n < f → value 0 (digits f n) ≡ n
unfolding digits
value-digits zero n h = absurd (omega arith)
value-digits (suc f) n h = elim (Bool-cases (ltb n 10)) [
  | inl small ↦ rw small (ground arith)
  | inr large ↦
      let front = value-digits f (n / 10) (ground arith) in
      rw (large, value-append 0 (digits f (n / 10)) ((b'0' + n % 10) ∷ []), front) (omega arith)
]

pub all_digits-digits : (f n : ℕ) → all_digits (digits f n) ≡ true
unfolding digits
all_digits-digits zero n = refl
all_digits-digits (suc f) n = ground (
  arith,
  all_digits-append_digit (digits f (n / 10)) (b'0' + n % 10) (all_digits-digits f (n / 10)),
)

pub value-itoa_ℕ : (n : ℕ) → value 0 (itoa_ℕ n) ≡ n
unfolding itoa_ℕ
value-itoa_ℕ n = value-digits (suc n) n (omega arith)

-- Digits that a byte other than a digit ends are read off in one way only.
pub digits_split :
    (s t : Bytes) (x y : ℕ) (u v : Bytes)
    → all_digits s ≡ true
    → all_digits t ≡ true
    → is_digit x ≡ false
    → is_digit y ≡ false
    → s ++ (x ∷ u) ≡ t ++ (y ∷ v)
    → (s ≡ t) × (x ∷ u ≡ y ∷ v)
digits_split [] [] x y u v hs ht hx hy e = (refl, e)
digits_split [] (d ∷ t) x y u v hs ht hx hy e = absurd (ground arith)
digits_split (c ∷ s) [] x y u v hs ht hx hy e = absurd (ground arith)
digits_split (c ∷ s) (d ∷ t) x y u v hs ht hx hy e = ground (arith, digits_split s t x y u v)

pub itoa_ℕ_split :
    (i j : ℕ) (x y : ℕ) (u v : Bytes)
    → is_digit x ≡ false
    → is_digit y ≡ false
    → itoa_ℕ i ++ (x ∷ u) ≡ itoa_ℕ j ++ (y ∷ v)
    → (i ≡ j) × (x ∷ u ≡ y ∷ v)
unfolding itoa_ℕ
itoa_ℕ_split i j x y u v hx hy e =
    let (same, rest) =
      digits_split (itoa_ℕ i) (itoa_ℕ j) x y u v (all_digits-digits (suc i) i)
        (all_digits-digits (suc j) j) hx hy e in
    (sym (value-itoa_ℕ i) ∙ ap (value 0) same ∙ value-itoa_ℕ j, rest)
