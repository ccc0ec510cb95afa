-- ===== src/Gateway/Fuel.antt =====
-- The loops of cmd/gateway/sni.go and the fuel that they use.
use buildkit_operator.Base.{
  ℕ, zero, suc, ◌≡◌, ◌≢◌, ◌<◌, refl, sym, ◌∙◌, ap, Bool, true, false, Option, none, some, [], ◌∷◌,
  length, take, drop, length-drop, length-take, Bytes, arith,
}
use buildkit_operator.Gateway.{
  out_of_fuel, Parsed, failed, uint16_at, Scan, starved, scan_names, on_scan, scan_extensions,
  parse_extensions, skip_vectors, extensions_of, peek_body, short_read, sni_from_client_hello,
  peek_client_hello,
}

-- Whether a loop ran dry.
abbrev pub is_starved : Scan → Bool
is_starved starved = true
is_starved _ = false

abbrev pub is_out : Parsed → Bool
is_out (failed out_of_fuel) = true
is_out _ = false

scan_names_ends :
    (fuel : ℕ) (ext : Bytes) → length ext < fuel → is_starved (scan_names fuel ext) ≡ false
unfolding scan_names
scan_names_ends zero ext h = absurd (omega arith)
scan_names_ends (suc fuel) ext h = ground (
  arith,
  scan_names_ends fuel (drop (uint16_at 1 ext) (drop 3 ext)),
  length-drop (uint16_at 1 ext) (drop 3 ext),
  length-drop 3 ext,
)

on_scan_ends :
    (s : Scan) (later : Parsed)
    → is_starved s ≡ false
    → is_out later ≡ false
    → is_out (on_scan s later) ≡ false
unfolding on_scan
on_scan_ends s later h k = ground arith

scan_extensions_ends :
    (fuel : ℕ) (b : Bytes) → length b < fuel → is_out (scan_extensions fuel b) ≡ false
unfolding scan_extensions
scan_extensions_ends zero b h = absurd (omega arith)
scan_extensions_ends (suc fuel) b h =
    let l = uint16_at 2 b in
    let names = drop 2 (take l (drop 4 b)) in
    let later = scan_extensions fuel (drop l (drop 4 b)) in
    ground (
      arith,
      scan_extensions_ends fuel (drop l (drop 4 b)),
      length-drop l (drop 4 b),
      length-drop 4 b,
      scan_names_ends (suc (length names)) names,
      on_scan_ends (scan_names (suc (length names)) names) later,
    )

parse_extensions_ends : (b : Bytes) → is_out (parse_extensions b) ≡ false
unfolding parse_extensions
parse_extensions_ends b = ground (
  arith,
  scan_extensions_ends (suc (uint16_at 0 b)) (take (uint16_at 0 b) (drop 2 b)),
  length-take (uint16_at 0 b) (drop 2 b),
)

extensions_of_ends : (o : Option Bytes) → is_out (extensions_of o) ≡ false
unfolding extensions_of
extensions_of_ends none = refl
extensions_of_ends (some rest) = parse_extensions_ends rest

sni_from_client_hello_ends : (b : Bytes) → is_out (sni_from_client_hello b) ≡ false
unfolding sni_from_client_hello
sni_from_client_hello_ends b =
    ground (arith, extensions_of_ends (skip_vectors (1 ∷ 2 ∷ 1 ∷ []) (drop 34 (drop 4 b))))

peek_body_ends :
    (hdr : Bytes) (n : ℕ) (input : Bytes) → is_out (peek_body hdr n input).parsed ≡ false
unfolding peek_body short_read
peek_body_ends hdr n [] = ground (arith, sni_from_client_hello_ends (take n []))
peek_body_ends hdr n (c ∷ cs) = ground (arith, sni_from_client_hello_ends (take n (c ∷ cs)))

short_read_ends : (input : Bytes) → is_out (failed (short_read input)) ≡ false
unfolding short_read
short_read_ends [] = refl
short_read_ends (c ∷ cs) = refl

peek_is_in : (input : Bytes) → is_out (peek_client_hello input).parsed ≡ false
unfolding peek_client_hello
peek_is_in input = ground (
  arith,
  short_read_ends input,
  peek_body_ends (take 5 input) (uint16_at 3 (take 5 input)) (drop 5 input),
)

-- On every input the parser ends with an answer of the code's own: the loops never run out of the
-- fuel that they are given.
pub peek_client_hello_ends : (input : Bytes) → (peek_client_hello input).parsed ≢ failed out_of_fuel
peek_client_hello_ends input e =
    let wrong : true ≡ false = sym (ap is_out e) ∙ peek_is_in input in absurd (cc wrong)
