-- ===== src/Router/Urls/Bytewise.antt =====
-- Texts all of whose bytes are of a class, and what the searches of `NormalizeRepo` find in them.
use buildkit_operator.Base.{
  ℕ, ◌≡◌, refl, ap, Bool, true, false, ◌&&◌, ◌||◌, not, ◌==◌, leb, none, some, [], ◌∷◌, ◌++◌,
  length, Bytes, has_prefix, to_lower, trim_left, trim_right, trim_space, arith,
}
use buildkit_operator.Router.{index_byte, all_digit_bytes, colons_to_slashes}

abbrev pub all_bytes : (ℕ → Bool) → Bytes → Bool
all_bytes p [] = true
all_bytes p (c ∷ cs) = p c && all_bytes p cs

-- Bytes that trimming and lowering leave alone.
abbrev pub is_plain : ℕ → Bool
is_plain c = not (c == b' ' || (leb 9 c && leb c 13)) && not (leb b'A' c && leb c b'Z')

abbrev pub is_path_byte : ℕ → Bool
is_path_byte c = is_plain c && not (c == b':') && not (c == b'@')

abbrev pub is_host_byte : ℕ → Bool
is_host_byte c = is_path_byte c && not (c == b'/')

pub all_bytes-append :
    (p : ℕ → Bool) (xs ys : Bytes)
    → all_bytes p xs ≡ true
    → all_bytes p ys ≡ true
    → all_bytes p (xs ++ ys) ≡ true
all_bytes-append p [] ys h k = k
all_bytes-append p (x ∷ xs) ys h k = ground (arith, all_bytes-append p xs ys)

pub plain-of_path : (s : Bytes) → all_bytes is_path_byte s ≡ true → all_bytes is_plain s ≡ true
plain-of_path [] h = refl
plain-of_path (c ∷ cs) h = ground (arith, plain-of_path cs)

pub path-of_host : (s : Bytes) → all_bytes is_host_byte s ≡ true → all_bytes is_path_byte s ≡ true
path-of_host [] h = refl
path-of_host (c ∷ cs) h = ground (arith, path-of_host cs)

pub host-of_digits : (s : Bytes) → all_digit_bytes s ≡ true → all_bytes is_host_byte s ≡ true
unfolding all_digit_bytes
host-of_digits [] h = refl
host-of_digits (c ∷ cs) h = ground (arith, host-of_digits cs)

pub to_lower_plain : (s : Bytes) → all_bytes is_plain s ≡ true → to_lower s ≡ s
unfolding to_lower
to_lower_plain [] h = refl
to_lower_plain (c ∷ cs) h = ground (arith, to_lower_plain cs)

trim_left_plain : (s : Bytes) → all_bytes is_plain s ≡ true → trim_left s ≡ s
unfolding trim_left
trim_left_plain [] h = refl
trim_left_plain (c ∷ cs) h = ground arith

trim_right_plain : (s : Bytes) → all_bytes is_plain s ≡ true → trim_right s ≡ s
unfolding trim_right
trim_right_plain [] h = refl
trim_right_plain (c ∷ []) h = ground arith
trim_right_plain (c ∷ d ∷ cs) h = ground (arith, trim_right_plain (d ∷ cs))

pub trim_space_plain : (s : Bytes) → all_bytes is_plain s ≡ true → trim_space s ≡ s
unfolding trim_space
trim_space_plain s h = rw (trim_left_plain s h) (trim_right_plain s h)

-- A byte that stands nowhere in the text.
abbrev pub lacks : ℕ → Bytes → Bool
lacks b = all_bytes (λ c. not (c == b))

pub lacks_at : (s : Bytes) → all_bytes is_path_byte s ≡ true → lacks b'@' s ≡ true
lacks_at [] h = refl
lacks_at (c ∷ cs) h = ground (arith, lacks_at cs)

pub lacks_colon : (s : Bytes) → all_bytes is_path_byte s ≡ true → lacks b':' s ≡ true
lacks_colon [] h = refl
lacks_colon (c ∷ cs) h = ground (arith, lacks_colon cs)

pub lacks_slash : (s : Bytes) → all_bytes is_host_byte s ≡ true → lacks b'/' s ≡ true
lacks_slash [] h = refl
lacks_slash (c ∷ cs) h = ground (arith, lacks_slash cs)

pub index_byte-none : (s : Bytes) (b : ℕ) → lacks b s ≡ true → index_byte s b ≡ none
unfolding index_byte
index_byte-none [] b h = refl
index_byte-none (c ∷ cs) b h = ground (arith, index_byte-none cs b)

pub index_byte-append :
    (s rest : Bytes) (b : ℕ) → lacks b s ≡ true → index_byte (s ++ (b ∷ rest)) b ≡ some (length s)
unfolding index_byte
index_byte-append [] rest b h = ground arith
index_byte-append (c ∷ cs) rest b h = ground (arith, index_byte-append cs rest b)

pub colons_to_slashes_id : (s : Bytes) → lacks b':' s ≡ true → colons_to_slashes s ≡ s
unfolding colons_to_slashes
colons_to_slashes_id [] h = refl
colons_to_slashes_id (c ∷ cs) h = ground (arith, colons_to_slashes_id cs)

pub colons_to_slashes-append :
    (s rest : Bytes)
    → lacks b':' s ≡ true
    → lacks b':' rest ≡ true
    → colons_to_slashes (s ++ (b':' ∷ rest)) ≡ s ++ (b'/' ∷ rest)
unfolding colons_to_slashes
colons_to_slashes-append [] rest h k =
    ap (◌∷◌ b'/') (unfold colons_to_slashes in colons_to_slashes_id rest k)
colons_to_slashes-append (c ∷ cs) rest h k = ground (arith, colons_to_slashes-append cs rest)

-- A scheme is no prefix of a text without a colon.
pub has_prefix_no_colon :
    (s q m : Bytes) → lacks b':' s ≡ true → has_prefix s (q ++ (b':' ∷ m)) ≡ false
unfolding has_prefix
has_prefix_no_colon [] [] m h = refl
has_prefix_no_colon [] (y ∷ q) m h = refl
has_prefix_no_colon (c ∷ cs) [] m h = ground arith
has_prefix_no_colon (c ∷ cs) (y ∷ q) m h = ground (arith, has_prefix_no_colon cs q m)

-- Nor of one in which the first colon is not followed by a slash.
pub has_prefix_port :
    (s rest q m : Bytes) (x : ℕ)
    → lacks b':' s ≡ true
    → lacks b':' q ≡ true
    → (x == b'/') ≡ false
    → has_prefix (s ++ (b':' ∷ x ∷ rest)) (q ++ (b':' ∷ b'/' ∷ m)) ≡ false
unfolding has_prefix
has_prefix_port [] rest [] m x h k n = ground arith
has_prefix_port [] rest (y ∷ q) m x h k n = ground arith
has_prefix_port (c ∷ cs) rest [] m x h k n = ground arith
has_prefix_port (c ∷ cs) rest (y ∷ q) m x h k n = ground (arith, has_prefix_port cs rest q m x)
