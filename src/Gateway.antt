-- ===== src/Gateway.antt =====
-- cmd/gateway/sni.go: the server name is read off a ClientHello, and the bytes that were read are kept for
-- the backend. The reader is the bytes that it still has.
pub mod Fuel
pub mod Hello
pub mod Replay
pub mod Backend
use buildkit_operator.Base.{
  ℕ, zero, suc, ◌+◌, ◌-◌, ◌*◌, ◌^◌, ◌≡◌, Bool, true, false, not, ◌||◌, ltb, leb, ◌==◌,
  if◌then◌else◌, Option, none, some, List, [], ◌∷◌, ◌++◌, length, take, drop, replicate, get_elem?,
  Bytes,
}

-- The errors of the parser; `out_of_fuel` is none of the code's.
pub data SniError : Type 0 where
  eof unexpected_eof not_handshake bad_length not_client_hello truncated no_extensions no_sni
        out_of_fuel :
      SniError

pub data Parsed : Type 0 where
  server_name : Bytes → Parsed
  failed : SniError → Parsed

-- `b[i]`, behind a test of the length.
unfoldable pub byte_at : ℕ → Bytes → ℕ
byte_at i b = elim (get_elem? b i) [ none ↦ 0 | some c ↦ c ]

-- `binary.BigEndian.Uint16(b[i:])`.
unfoldable pub uint16_at : ℕ → Bytes → ℕ
uint16_at i b = byte_at i b * 256 + byte_at (suc i) b

-- A vector with a length of one or two bytes is skipped.
unfoldable pub skip_vector : ℕ → Bytes → Option Bytes
skip_vector k b =
    if ltb (length b) k
    then none
    else let l = if k == 1 then byte_at 0 b else uint16_at 0 b in
      let rest = drop k b in if ltb (length rest) l then none else some (drop l rest)

-- What the inner loop finds: a host name, none, or a name that is cut short.
pub data Scan : Type 0 where
  host : Bytes → Scan
  nothing : Scan
  cut_short : Scan
  starved : Scan

-- The inner loop, over the names of a server_name extension.
unfoldable pub scan_names : ℕ → Bytes → Scan
scan_names zero ext = starved
scan_names (suc fuel) ext =
    let l = uint16_at 1 ext in
    let names = drop 3 ext in
    let later = scan_names fuel (drop l names) in
    if ltb (length ext) 3
    then nothing
    else if ltb (length names) l
    then cut_short
    else if byte_at 0 ext == 0
    then host (take l names)
    else later

-- What a server_name extension gives, and how the outer loop goes on.
unfoldable pub on_scan : Scan → Parsed → Parsed
on_scan (host name) later = server_name name
on_scan nothing later = later
on_scan cut_short later = failed truncated
on_scan starved later = failed out_of_fuel

-- The outer loop, over the extensions.
unfoldable pub scan_extensions : ℕ → Bytes → Parsed
scan_extensions zero b = failed out_of_fuel
scan_extensions (suc fuel) b =
    let l = uint16_at 2 b in
    let body = drop 4 b in
    let ext = take l body in
    let later = scan_extensions fuel (drop l body) in
    let names = drop 2 ext in
    if ltb (length b) 4
    then failed no_sni
    else if ltb (length body) l
    then failed truncated
    else if not (uint16_at 0 b == 0)
    then later
    else if ltb (length ext) 2
    then failed truncated
    else on_scan (scan_names (suc (length names)) names) later

-- The extensions block.
unfoldable pub parse_extensions : Bytes → Parsed
parse_extensions b =
    let l = uint16_at 0 b in
    let rest = drop 2 b in
    if ltb (length b) 2
    then failed no_extensions
    else if ltb (length rest) l
    then failed truncated
    else scan_extensions (suc l) (take l rest)

-- One vector after the other, with what follows.
unfoldable pub skip_vectors : List ℕ → Bytes → Option Bytes
skip_vectors [] b = some b
skip_vectors (k ∷ ks) b = elim (skip_vector k b) [ none ↦ none | some rest ↦ skip_vectors ks rest ]

-- What follows the skipped vectors.
unfoldable pub extensions_of : Option Bytes → Parsed
extensions_of none = failed truncated
extensions_of (some rest) = parse_extensions rest

-- `sniFromClientHello`.
unfoldable pub sni_from_client_hello : Bytes → Parsed
sni_from_client_hello b =
    if ltb (length b) 4 || not (byte_at 0 b == 1)
    then failed not_client_hello
    else if ltb (length (drop 4 b)) 34
    then failed truncated
    else extensions_of (skip_vectors (1 ∷ 2 ∷ 1 ∷ []) (drop 34 (drop 4 b)))

-- What is returned: the outcome, the bytes to replay, and what the reader still has.
pub record Peek : Type 0 where
  pub parsed : Parsed
  pub raw : Bytes
  pub rest : Bytes

-- The error of `io.ReadFull` on fewer bytes than asked for.
unfoldable pub short_read : Bytes → SniError
short_read [] = eof
short_read (c ∷ cs) = unexpected_eof

-- The record's body; a buffer that is not filled keeps its zeros.
unfoldable pub peek_body : Bytes → ℕ → Bytes → Peek
peek_body hdr n input =
    if ltb (length input) n
    then record {
      parsed = failed (short_read input);
      raw = hdr ++ (input ++ replicate (n - length input) 0);
      rest = [];
    }
    else record {
      parsed = sni_from_client_hello (take n input);
      raw = hdr ++ take n input;
      rest = drop n input;
    }

abbrev pub max_record : ℕ
max_record = 2 ^ 14 + 2048

-- `peekClientHelloSNI`.
unfoldable pub peek_client_hello : Bytes → Peek
peek_client_hello input =
    let hdr = take 5 input in
    let n = uint16_at 3 hdr in
    if ltb (length input) 5
    then record { parsed = failed (short_read input); raw = []; rest = [] }
    else if not (byte_at 0 hdr == 22)
    then record { parsed = failed not_handshake; raw = hdr; rest = drop 5 input }
    else if (n == 0) || ltb max_record n
    then record { parsed = failed bad_length; raw = hdr; rest = drop 5 input }
    else peek_body hdr n (drop 5 input)
