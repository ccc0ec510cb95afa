-- ===== src/Gateway/Hello.antt =====
-- A ClientHello as clients write it, and `sniFromClientHello` on it.
use buildkit_operator.Base.{
  ℕ, zero, suc, ◌+◌, ◌*◌, ◌/◌, ◌%◌, ◌≡◌, ◌≤◌, ◌<◌, refl, sym, ap, ◌∙◌, false, not, ltb, ◌==◌,
  if◌then◌else◌, some, List, [], ◌∷◌, ◌++◌, append_assoc, length, take, drop, length-append,
  drop-append_length, take-append_length, All, Bytes, arith,
}
use buildkit_operator.Gateway.{
  server_name, failed, byte_at, uint16_at, skip_vector, skip_vectors, host, truncated, scan_names,
  on_scan, scan_extensions, parse_extensions, extensions_of, sni_from_client_hello,
}

-- Vectors with a length of one and of two bytes in front.
abbrev pub vector1 : Bytes → Bytes
vector1 s = length s ∷ s

abbrev pub vector2 : Bytes → Bytes
vector2 s = length s / 256 ∷ (length s % 256 ∷ s)

-- An extension: its kind in two bytes, and its body.
pub record Extension : Type 0 where
  pub high : ℕ
  pub low : ℕ
  pub body : Bytes

abbrev pub extension : Extension → Bytes
extension x = x.high ∷ (x.low ∷ vector2 x.body)

abbrev pub extensions : List Extension → Bytes
extensions [] = []
extensions (x ∷ xs) = extension x ++ extensions xs

-- The server_name extension with one host name.
abbrev pub named : Bytes → Extension
named name = record { high = 0; low = 0; body = vector2 (0 ∷ vector2 name) }

-- An extension of another kind.
abbrev pub IsOther : Extension → Type 0
IsOther x = 0 < x.high * 256 + x.low

pub record Hello : Type 0 where
  pub lengths : Bytes
  pub head : Bytes
  pub session : Bytes
  pub ciphers : Bytes
  pub compression : Bytes
  pub before : List Extension
  pub name : Bytes
  pub after : Bytes

abbrev pub block : Hello → Bytes
block h = extensions h.before ++ (extension (named h.name) ++ h.after)

abbrev pub client_hello : Hello → Bytes
client_hello h =
    1
    ∷ (h.lengths
        ++ (h.head
            ++ (vector1 h.session
                ++ (vector2 h.ciphers ++ (vector1 h.compression ++ vector2 (block h))))))

pub record IsHello (h : Hello) : Type 0 where
  pub lengths_size : length h.lengths ≡ 3
  pub head_size : length h.head ≡ 34
  pub others : All IsOther h.before

uint16_at-vector2 : (s t : Bytes) → uint16_at 0 (vector2 s ++ t) ≡ length s
unfolding uint16_at byte_at
uint16_at-vector2 s t = ground arith

skip_vector1 : (s t : Bytes) → skip_vector 1 (vector1 s ++ t) ≡ some t
unfolding skip_vector byte_at
skip_vector1 s t = ground (arith, length-append s t, drop-append_length s t)

skip_vector2 : (s t : Bytes) → skip_vector 2 (vector2 s ++ t) ≡ some t
unfolding skip_vector
skip_vector2 s t = ground (arith, uint16_at-vector2 s t, length-append s t, drop-append_length s t)

take_all : (s : Bytes) → take (length s) s ≡ s
take_all [] = refl
take_all (c ∷ s) = ap (◌∷◌ c) (take_all s)

scan_named : (fuel : ℕ) (name : Bytes) → scan_names (suc fuel) (0 ∷ vector2 name) ≡ host name
unfolding scan_names uint16_at byte_at
scan_named fuel name =
    let size : length name / 256 * 256 + length name % 256 ≡ length name = omega arith in
    rw size (ground (arith, take_all name))

-- One turn of the outer loop.
scan_extensions-extension :
    (fuel : ℕ) (x : Extension) (t : Bytes)
    → scan_extensions (suc fuel) (extension x ++ t) ≡ (
        let later = scan_extensions fuel t in
        let names = drop 2 x.body in
        if not (x.high * 256 + x.low == 0)
        then later
        else if ltb (length x.body) 2
        then failed truncated
        else on_scan (scan_names (suc (length names)) names) later)
unfolding scan_extensions uint16_at byte_at
scan_extensions-extension fuel x t =
    let size : length x.body / 256 * 256 + length x.body % 256 ≡ length x.body = omega arith in
    rw (size, drop-append_length x.body t, take-append_length x.body t)
      (ground (arith, length-append x.body t))

scan_extensions-named :
    (fuel : ℕ) (name after : Bytes)
    → scan_extensions (suc fuel) (extension (named name) ++ after) ≡ server_name name
unfolding on_scan
scan_extensions-named fuel name after =
    rw (scan_extensions-extension fuel (named name) after)
      (rw (scan_named (length (0 ∷ vector2 name)) name) (ground arith))

-- The other extensions are passed over.
scan_extensions-found :
    (fuel : ℕ) (before : List Extension) (name after : Bytes)
    → length before < fuel
    → All IsOther before
    → scan_extensions fuel (extensions before ++ (extension (named name) ++ after))
      ≡ server_name name
scan_extensions-found zero before name after h others = absurd (omega arith)
scan_extensions-found (suc fuel) [] name after h others = scan_extensions-named fuel name after
scan_extensions-found (suc fuel) (x ∷ xs) name after h others =
    let tail = extensions xs ++ (extension (named name) ++ after) in
    let other : (x.high * 256 + x.low == 0) ≡ false = ground arith in
    rw (append_assoc (extension x) (extensions xs) (extension (named name) ++ after)) (
      rw (scan_extensions-extension fuel x tail)
        (rw other (scan_extensions-found fuel xs name after (omega arith) others.1)))

length-extensions : (xs : List Extension) → length xs ≤ length (extensions xs)
length-extensions [] = omega arith
length-extensions (x ∷ xs) =
    omega (arith, length-extensions xs, length-append (extension x) (extensions xs))

parse_extensions-found :
    (h : Hello) → IsHello h → parse_extensions (vector2 (block h)) ≡ server_name h.name
unfolding parse_extensions uint16_at byte_at
parse_extensions-found h is =
    let size : length (block h) / 256 * 256 + length (block h) % 256 ≡ length (block h) =
      omega arith in
    let found =
      scan_extensions-found (suc (length (block h))) h.before h.name h.after
        (omega (
          arith,
          length-extensions h.before,
          length-append (extensions h.before) (extension (named h.name) ++ h.after),
        ))
        is.others in
    rw (size, take_all (block h)) (ground (arith, found))

abbrev vectors : Hello → Bytes
vectors h = vector1 h.session ++ (vector2 h.ciphers ++ (vector1 h.compression ++ vector2 (block h)))

skip_vectors-cons :
    (k : ℕ) (ks : List ℕ) (b rest : Bytes)
    → skip_vector k b ≡ some rest
    → skip_vectors (k ∷ ks) b ≡ skip_vectors ks rest
unfolding skip_vectors
skip_vectors-cons k ks b rest e = cc e

skip_vectors-vectors :
    (h : Hello) → skip_vectors (1 ∷ 2 ∷ 1 ∷ []) (vectors h) ≡ some (vector2 (block h))
unfolding skip_vectors
skip_vectors-vectors h =
    let third = vector1 h.compression ++ vector2 (block h) in
    let second = vector2 h.ciphers ++ third in
    skip_vectors-cons 1 (2 ∷ 1 ∷ []) (vectors h) second (skip_vector1 h.session second)
    ∙ skip_vectors-cons 2 (1 ∷ []) second third (skip_vector2 h.ciphers third)
    ∙ skip_vectors-cons 1 [] third (vector2 (block h))
        (skip_vector1 h.compression (vector2 (block h)))

drop_front : (n : ℕ) (s t : Bytes) → length s ≡ n → drop n (s ++ t) ≡ t
drop_front n s t e = ap (λ k. drop k (s ++ t)) (sym e) ∙ drop-append_length s t

-- A ClientHello written with any session, ciphers and compression, extensions of other kinds in
-- front of the server_name extension and anything behind it, gives the host name that was written
-- into it, if its length field has 3 bytes and its version and random have 34.
pub sni_from_client_hello-found :
    (h : Hello) → IsHello h → sni_from_client_hello (client_hello h) ≡ server_name h.name
unfolding sni_from_client_hello extensions_of byte_at
sni_from_client_hello-found h is =
    let past_lengths = drop_front 3 h.lengths (h.head ++ vectors h) is.lengths_size in
    let past_head = drop_front 34 h.head (vectors h) is.head_size in
    rw (past_lengths, past_head, skip_vectors-vectors h)
      (rw (parse_extensions-found h is) (
        ground (
          arith,
          is.lengths_size,
          is.head_size,
          length-append h.lengths (h.head ++ vectors h),
          length-append h.head (vectors h),
        )))
