-- ===== src/Router/Keys/Families.antt =====
-- Canonical, fork and clone keys, and the names made of them.
use mathlib.Core.List.{append_cancel_left, append_cancel_right}
use buildkit_operator.Base.{
  ℕ, ◌*◌, ◌≡◌, ◌≢◌, refl, ap, true, false, ℤ, pos, [], ◌∷◌, length, length-take, drop, Bytes, text,
  has_prefix-append, hex_encode, itoa, arith,
}
use buildkit_operator.Base.Decimal.{is_digit, itoa_ℕ_split}
use buildkit_operator.Router.{
  project_key, project_seed, daemon_name, fork_key, is_fork_key, clone_key, cache_pvc_name,
}

-- A key of which the first byte is no digit, as that of every canonical key.
abbrev pub IsKeyed : Bytes → Type 0
IsKeyed [] = ⊥
IsKeyed (c ∷ cs) = is_digit c ≡ false

abbrev first_byte : Bytes → ℕ
first_byte [] = 0
first_byte (c ∷ cs) = c

pub daemon_name_injective : (k l : Bytes) → daemon_name k ≡ daemon_name l → k ≡ l
unfolding daemon_name
daemon_name_injective k l e = append_cancel_left (text "buildkitd-") k l e

-- So a project's cache volume is its own.
pub cache_pvc_name_injective : (k l : Bytes) → cache_pvc_name k ≡ cache_pvc_name l → k ≡ l
unfolding cache_pvc_name
cache_pvc_name_injective k l e =
    append_cancel_right k l (text "-0") (append_cancel_left (text "cache-buildkitd-") _ _ e)

pub is_fork_key-fork_key : (k : Bytes) → is_fork_key (fork_key k) ≡ true
unfolding is_fork_key fork_key
is_fork_key-fork_key k = has_prefix-append (text "fork") k

pub fork_key_injective : (k l : Bytes) → fork_key k ≡ fork_key l → k ≡ l
unfolding fork_key
fork_key_injective k l e = append_cancel_left (text "fork") k l e

pub project_key-IsKeyed :
    (sha256 : Bytes → Bytes) (repo name target arch : Bytes)
    → IsKeyed (project_key sha256 repo name target arch)
unfolding project_key
project_key-IsKeyed sha256 repo name target arch = refl

pub is_fork_key-project_key :
    (sha256 : Bytes → Bytes) (repo name target arch : Bytes)
    → is_fork_key (project_key sha256 repo name target arch) ≡ false
unfolding project_key is_fork_key
is_fork_key-project_key sha256 repo name target arch = refl

pub is_fork_key-clone_key : (k : Bytes) (i : ℤ) → is_fork_key (clone_key k i) ≡ false
unfolding clone_key is_fork_key
is_fork_key-clone_key k i = refl

-- Clone keys of canonical keys (which start with p) with natural replica numbers are equal only
-- for the same replica of the same key.
pub clone_key_injective :
    (k l : Bytes) (i j : ℕ)
    → IsKeyed k
    → IsKeyed l
    → clone_key k (pos i) ≡ clone_key l (pos j)
    → (i ≡ j) × (k ≡ l)
unfolding clone_key itoa
clone_key_injective [] l i j hk hl e = absurd hk
clone_key_injective (x ∷ k) [] i j hk hl e = absurd hl
clone_key_injective (x ∷ k) (y ∷ l) i j hk hl e = itoa_ℕ_split i j x y k l hk hl (ap (drop 1) e)

-- A fork, a clone and a canonical project never have one daemon.
pub record AreApart (canonical fork clone : Bytes) : Type 0 where
  pub fork_ne : daemon_name fork ≢ daemon_name canonical
  pub clone_ne : daemon_name clone ≢ daemon_name canonical
  pub fork_clone_ne : daemon_name fork ≢ daemon_name clone

-- The daemon names of a canonical key, of a fork key and of a clone key are pairwise different,
-- for any digest, repository, name, target, architecture, key and replica number.
pub keys-AreApart :
    (sha256 : Bytes → Bytes) (repo name target arch k l : Bytes) (i : ℤ)
    → AreApart (project_key sha256 repo name target arch) (fork_key k) (clone_key l i)
unfolding project_key fork_key clone_key
keys-AreApart sha256 repo name target arch k l i = record {
  fork_ne = λ e. omega (
    arith,
    ap first_byte (daemon_name_injective (fork_key k) (project_key sha256 repo name target arch) e),
  );
  clone_ne = λ e. omega (
    arith,
    ap first_byte
        (daemon_name_injective (clone_key l i) (project_key sha256 repo name target arch) e),
  );
  fork_clone_ne =
      λ e. omega (arith, ap first_byte (daemon_name_injective (fork_key k) (clone_key l i) e));
}

length-hex_encode : (s : Bytes) → length (hex_encode s) ≡ 2 * length s
unfolding hex_encode
length-hex_encode [] = refl
length-hex_encode (c ∷ cs) = omega (arith, length-hex_encode cs)

-- With a digest of 32 bytes a daemon's name has 27 bytes.
pub length-daemon_name-project_key :
    (sha256 : Bytes → Bytes) (repo name target arch : Bytes)
    → length (sha256 (project_seed repo name target arch)) ≡ 32
    → length (daemon_name (project_key sha256 repo name target arch)) ≡ 27
unfolding daemon_name project_key
length-daemon_name-project_key sha256 repo name target arch h =
    let d = sha256 (project_seed repo name target arch) in
    omega (arith, length-take 16 (hex_encode d), length-hex_encode d)
