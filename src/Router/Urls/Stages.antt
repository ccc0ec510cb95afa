-- ===== src/Router/Urls/Stages.antt =====
-- Each stage of `NormalizeRepo` on the texts that the forms of a repository give it.
use buildkit_operator.Base.{
  ℕ, ◌≡◌, refl, true, false, ◌==◌, none, some, ◌∷◌, ◌++◌, take, find_index, is_empty, Bytes, text,
  has_prefix, trim_prefix, drop-append_length, drop-append_past, take-append_length, arith,
  Option-cases, inl, inr,
}
use buildkit_operator.Router.{
  index_byte, is_all_digits, all_digit_bytes, strip_schemes, strip_user, strip_port,
}
use buildkit_operator.Router.Urls.Bytewise.{
  lacks, index_byte-none, index_byte-append, has_prefix_no_colon, has_prefix_port, host-of_digits,
  lacks_slash,
}

-- A text that begins with none of the schemes.
pub record IsBare (s : Bytes) : Type 0 where
  pub no_https : has_prefix s (text "https://") ≡ false
  pub no_http : has_prefix s (text "http://") ≡ false
  pub no_git : has_prefix s (text "git://") ≡ false
  pub no_ssh : has_prefix s (text "ssh://") ≡ false

pub IsBare-no_colon : (s : Bytes) → lacks b':' s ≡ true → IsBare s
IsBare-no_colon s h = record {
  no_https = has_prefix_no_colon s (text "https") (text "//") h;
  no_http = has_prefix_no_colon s (text "http") (text "//") h;
  no_git = has_prefix_no_colon s (text "git") (text "//") h;
  no_ssh = has_prefix_no_colon s (text "ssh") (text "//") h;
}

pub IsBare-port :
    (s rest : Bytes) (x : ℕ)
    → lacks b':' s ≡ true
    → (x == b'/') ≡ false
    → IsBare (s ++ (b':' ∷ x ∷ rest))
IsBare-port s rest x h n = record {
  no_https = has_prefix_port s rest (text "https") (text "/") x h refl n;
  no_http = has_prefix_port s rest (text "http") (text "/") x h refl n;
  no_git = has_prefix_port s rest (text "git") (text "/") x h refl n;
  no_ssh = has_prefix_port s rest (text "ssh") (text "/") x h refl n;
}

pub IsBare-user : (s : Bytes) → IsBare (text "git@" ++ s)
unfolding has_prefix
IsBare-user s = record { no_https = refl; no_http = refl; no_git = refl; no_ssh = refl }

trim_prefix_miss : (s p : Bytes) → has_prefix s p ≡ false → trim_prefix s p ≡ s
unfolding trim_prefix
trim_prefix_miss s p h = rw h

pub strip_schemes_bare : (s : Bytes) → IsBare s → strip_schemes s ≡ s
unfolding strip_schemes
strip_schemes_bare s b = rw (
  trim_prefix_miss s (text "https://") b.no_https,
  trim_prefix_miss s (text "http://") b.no_http,
  trim_prefix_miss s (text "git://") b.no_git,
  trim_prefix_miss s (text "ssh://") b.no_ssh,
)

-- One scheme goes, if none stands behind it.
pub strip_https : (s : Bytes) → IsBare s → strip_schemes (text "https://" ++ s) ≡ s
unfolding strip_schemes trim_prefix has_prefix
strip_https s b = ground arith

pub strip_http : (s : Bytes) → IsBare s → strip_schemes (text "http://" ++ s) ≡ s
unfolding strip_schemes trim_prefix has_prefix
strip_http s b = ground arith

pub strip_git : (s : Bytes) → IsBare s → strip_schemes (text "git://" ++ s) ≡ s
unfolding strip_schemes trim_prefix has_prefix
strip_git s b = ground arith

pub strip_ssh : (s : Bytes) → strip_schemes (text "ssh://" ++ s) ≡ s
unfolding strip_schemes trim_prefix has_prefix
strip_ssh s = ground arith

pub strip_user_none : (s : Bytes) → lacks b'@' s ≡ true → strip_user s ≡ s
unfolding strip_user
strip_user_none s h = rw (index_byte-none s b'@' h, strip_user)

pub strip_user_git : (s : Bytes) → strip_user (text "git@" ++ s) ≡ s
unfolding strip_user index_byte
strip_user_git s = elim (Option-cases (find_index (λ x. x == b'/') s)) [
  | inl miss ↦ rw miss
  | inr (i, hit) ↦ rw hit (ground arith)
]

pub strip_port_none : (s : Bytes) → lacks b':' s ≡ true → strip_port s ≡ s
unfolding strip_port
strip_port_none s h = rw (index_byte-none s b':' h, strip_port)

pub digits_of : (s : Bytes) → is_all_digits s ≡ true → all_digit_bytes s ≡ true
unfolding is_all_digits
digits_of s h = ground arith

pub nonempty_of : (s : Bytes) → is_all_digits s ≡ true → is_empty s ≡ false
unfolding is_all_digits
nonempty_of s h = ground arith

-- A number up to the first slash after the colon is a port, and goes.
pub strip_port_port :
    (host port rest : Bytes)
    → lacks b':' host ≡ true
    → is_all_digits port ≡ true
    → strip_port (host ++ (b':' ∷ (port ++ (b'/' ∷ rest)))) ≡ host ++ (b'/' ∷ rest)
unfolding strip_port
strip_port_port host port rest h d = ground (
  arith,
  index_byte-append host (port ++ (b'/' ∷ rest)) b':' h,
  drop-append_past host b':' (port ++ (b'/' ∷ rest)),
  index_byte-append port rest b'/' (lacks_slash port (host-of_digits port (digits_of port d))),
  take-append_length host (b':' ∷ (port ++ (b'/' ∷ rest))),
  take-append_length port (b'/' ∷ rest),
  drop-append_length port (b'/' ∷ rest),
  nonempty_of port d,
)

-- The part after a colon up to a slash.
abbrev pub first_segment : Bytes → Bytes
first_segment s = elim (index_byte s b'/') [ none ↦ s | some e ↦ take e s ]

pub strip_port_path :
    (host rest : Bytes)
    → lacks b':' host ≡ true
    → is_all_digits (first_segment rest) ≡ false
    → strip_port (host ++ (b':' ∷ rest)) ≡ host ++ (b':' ∷ rest)
unfolding strip_port
strip_port_path host rest h d =
    ground (arith, index_byte-append host rest b':' h, drop-append_past host b':' rest)
