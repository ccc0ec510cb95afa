-- ===== src/Gateway/Replay.antt =====
-- `peekClientHelloSNI`: the bytes that were read, and those that are left.
use buildkit_operator.Base.{
  ℕ, zero, suc, ◌-◌, ◌+◌, ◌≡◌, ◌≤◌, refl, sym, ap, ◌∙◌, Bool, true, false, not, ◌||◌, ltb, ◌==◌,
  if◌then◌else◌, [], ◌++◌, append_assoc, length, take, drop, replicate, take-append-drop,
  length-take, length-append, drop-append_length, Bytes, arith,
}
use buildkit_operator.Gateway.{
  server_name, failed, byte_at, uint16_at, sni_from_client_hello, Peek, peek_body,
  peek_client_hello, max_record, short_read, bad_length, not_handshake,
}

length-replicate : (n : ℕ) → length {A = ℕ} (replicate n 0) ≡ n
length-replicate zero = refl
length-replicate (suc n) = omega (arith, length-replicate n)

peek_body-bounded :
    (hdr : Bytes) (n : ℕ) (input : Bytes) → length (peek_body hdr n input).raw ≡ length hdr + n
unfolding peek_body
peek_body-bounded hdr n input = ground (
  arith,
  length-append hdr (input ++ replicate (n - length input) 0),
  length-append input (replicate (n - length input) 0),
  length-replicate (n - length input),
  length-append hdr (take n input),
  length-take n input,
)

pub peek_client_hello-bounded :
    (input : Bytes) → length (peek_client_hello input).raw ≤ 5 + max_record
unfolding peek_client_hello
peek_client_hello-bounded input =
    let n = uint16_at 3 (take 5 input) in
    ground (arith, length-take 5 input, peek_body-bounded (take 5 input) n (drop 5 input))

-- What is said of a peek that finds the name.
abbrev Replays : Bytes → Bytes → Peek → Type 0
Replays input name p =
    p.parsed ≡ server_name name
    → (p.raw ++ p.rest ≡ input) × (sni_from_client_hello (drop 5 p.raw) ≡ server_name name)

if-Replays :
    (input name : Bytes) (c : Bool) (m n : Peek)
    → (c ≡ true → Replays input name m)
    → (c ≡ false → Replays input name n)
    → Replays input name (if c then m else n)
if-Replays input name true m n hm hn = hm refl
if-Replays input name false m n hm hn = hn refl

drop-header :
    (input tail : Bytes) → ltb (length input) 5 ≡ false → drop 5 (take 5 input ++ tail) ≡ tail
drop-header input tail long =
    let sized : length (take 5 input) ≡ 5 = ground (arith, length-take 5 input) in
    ap (λ k. drop k (take 5 input ++ tail)) (sym sized) ∙ drop-append_length (take 5 input) tail

peek_body-Replays :
    (n : ℕ) (input name : Bytes)
    → ltb (length input) 5 ≡ false
    → Replays input name (peek_body (take 5 input) n (drop 5 input))
unfolding peek_body
peek_body-Replays n input name long =
    let tail = drop 5 input in
    if-Replays input name (ltb (length tail) n) _ _ (λ c e. absurd (cc e))
      (λ c e. (
        append_assoc (take 5 input) (take n tail) (drop n tail)
            ∙ ap (λ t. take 5 input ++ t) (take-append-drop n tail)
            ∙ take-append-drop 5 input,
        ap sni_from_client_hello (drop-header input (take n tail) long) ∙ e,
      ))

-- If the gateway finds a server name, the bytes that it replays and those that the reader still
-- has are together the connection's bytes, and the replayed bytes behind the record header parse
-- to that name.
pub peek_client_hello-Replays :
    (input name : Bytes)
    → (peek_client_hello input).parsed ≡ server_name name
    → ((peek_client_hello input).raw ++ (peek_client_hello input).rest ≡ input)
      × (sni_from_client_hello (drop 5 (peek_client_hello input).raw) ≡ server_name name)
unfolding peek_client_hello
peek_client_hello-Replays input name =
    let hdr = take 5 input in
    let tail = drop 5 input in
    let n = uint16_at 3 hdr in
    let body = peek_body hdr n tail in
    let wrong_length : Peek = record { parsed = failed bad_length; raw = hdr; rest = tail } in
    let wrong_kind : Peek = record { parsed = failed not_handshake; raw = hdr; rest = tail } in
    let short : Peek = record { parsed = failed (short_read input); raw = []; rest = [] } in
    let is_bad = (n == 0) || ltb max_record n in
    let is_other = not (byte_at 0 hdr == 22) in
    let sized = if is_bad then wrong_length else body in
    if-Replays input name (ltb (length input) 5) short (if is_other then wrong_kind else sized)
      (λ c e. absurd (cc e))
      (λ long.
        if-Replays input name is_other wrong_kind sized (λ c e. absurd (cc e))
          (λ d.
            if-Replays input name is_bad wrong_length body (λ c e. absurd (cc e))
              (λ f. peek_body-Replays n input name long)))
