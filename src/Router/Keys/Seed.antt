-- ===== src/Router/Keys/Seed.antt =====
-- The text that `ProjectKey` hashes, and the identity that it stands for.
use buildkit_operator.Base.{
  ◌≡◌, refl, sym, ap, ◌∙◌, true, false, [], ◌∷◌, ◌++◌, drop, is_empty, Bytes, text, append_assoc,
  arith, if◌then◌else◌,
}
use buildkit_operator.Router.{
  normalize_repo, normalize_name, normalize_target, normalize_arch, project_seed,
}
use buildkit_operator.Router.Urls.Bytewise.{lacks}

-- The four parts of an identity as the seed carries them.
pub record Identity : Type 0 where
  pub repo : Bytes
  pub name : Bytes
  pub target : Bytes
  pub arch : Bytes

abbrev pub identity : Bytes → Bytes → Bytes → Bytes → Identity
identity repo name target arch = record {
  repo = normalize_repo repo;
  name = normalize_name name;
  target = normalize_target target;
  arch = normalize_arch arch;
}

-- No part holds the byte that separates them.
pub record IsSeparable (i : Identity) : Type 0 where
  pub in_repo : lacks 0 i.repo ≡ true
  pub in_name : lacks 0 i.name ≡ true
  pub in_target : lacks 0 i.target ≡ true
  pub in_arch : lacks 0 i.arch ≡ true

-- What stands between the repo and the target.
abbrev tagged : Bytes → Bytes → Bytes
tagged [] rest = rest
tagged (c ∷ cs) rest = 0 ∷ (text "n:" ++ ((c ∷ cs) ++ rest))

abbrev seed_of : Identity → Bytes
seed_of i = i.repo ++ tagged i.name (0 ∷ (i.target ++ (0 ∷ i.arch)))

add_name :
    (repo n rest : Bytes)
    → (if is_empty n then repo else repo ++ (0 ∷ (text "n:" ++ n))) ++ rest ≡ repo ++ tagged n rest
add_name repo [] rest = refl
add_name repo (c ∷ cs) rest = append_assoc repo (0 ∷ (text "n:" ++ (c ∷ cs))) rest

project_seed-seed_of :
    (repo name target arch : Bytes)
    → project_seed repo name target arch ≡ seed_of (identity repo name target arch)
unfolding project_seed
project_seed-seed_of repo name target arch = add_name (normalize_repo repo) (normalize_name name) _

-- A separator that neither front part holds splits a text in one way.
split_at :
    (s t u v : Bytes)
    → lacks 0 s ≡ true
    → lacks 0 t ≡ true
    → s ++ (0 ∷ u) ≡ t ++ (0 ∷ v)
    → (s ≡ t) × (u ≡ v)
split_at [] [] u v h k e = (refl, ap (drop 1) e)
split_at [] (d ∷ t) u v h k e = absurd (ground arith)
split_at (c ∷ s) [] u v h k e = absurd (ground arith)
split_at (c ∷ s) (d ∷ t) u v h k e = ground (arith, split_at s t u v)

lacks_middle : (s t : Bytes) → lacks 0 (s ++ (0 ∷ t)) ≡ false
lacks_middle [] t = refl
lacks_middle (c ∷ s) t = ground (arith, lacks_middle s t)

module _ (r t a r' t' a' : Bytes) (hr : lacks 0 r ≡ true) (ht : lacks 0 t ≡ true)
    (ha : lacks 0 a ≡ true) (hr' : lacks 0 r' ≡ true) (ht' : lacks 0 t' ≡ true)
    (ha' : lacks 0 a' ≡ true) where
  parts_equal :
      (n m : Bytes)
      → lacks 0 n ≡ true
      → lacks 0 m ≡ true
      → r ++ tagged n (0 ∷ (t ++ (0 ∷ a))) ≡ r' ++ tagged m (0 ∷ (t' ++ (0 ∷ a')))
      → (r ≡ r') × (n ≡ m) × (t ≡ t') × (a ≡ a')
  parts_equal [] [] hn hm e =
      let (er, rest) = split_at r r' _ _ hr hr' e in
      let (et, ea) = split_at t t' _ _ ht ht' rest in (er, refl, et, ea)
  parts_equal [] (d ∷ m) hn hm e =
      let (er, rest) = split_at r r' _ _ hr hr' e in
      let (et, ea) = split_at t (text "n:" ++ (d ∷ m)) a (t' ++ (0 ∷ a')) ht hm rest in
      absurd (cc (ap (lacks 0) ea, lacks_middle t' a'))
  parts_equal (c ∷ n) [] hn hm e =
      let (er, rest) = split_at r r' _ _ hr hr' e in
      let (et, ea) = split_at (text "n:" ++ (c ∷ n)) t' (t ++ (0 ∷ a)) a' hn ht' rest in
      absurd (cc (ap (lacks 0) ea, lacks_middle t a))
  parts_equal (c ∷ n) (d ∷ m) hn hm e =
      let (er, rest) = split_at r r' _ _ hr hr' e in
      let (en, more) =
        split_at (text "n:" ++ (c ∷ n)) (text "n:" ++ (d ∷ m)) (t ++ (0 ∷ a)) (t' ++ (0 ∷ a')) hn hm
          rest in
      let (et, ea) = split_at t t' _ _ ht ht' more in (er, ap (drop 2) en, et, ea)

-- Two requests whose normalised repository, name, target and architecture hold no NUL byte and
-- whose digest input is the same have the same normalised repository, name, target and
-- architecture.
pub project_seed_injective :
    (repo name target arch repo' name' target' arch' : Bytes)
    → IsSeparable (identity repo name target arch)
    → IsSeparable (identity repo' name' target' arch')
    → project_seed repo name target arch ≡ project_seed repo' name' target' arch'
    → identity repo name target arch ≡ identity repo' name' target' arch'
project_seed_injective repo name target arch repo' name' target' arch' h h' e =
    let (er, en, et, ea) =
      parts_equal _ _ _ _ _ _ h.in_repo h.in_target h.in_arch h'.in_repo h'.in_target h'.in_arch _ _
        h.in_name h'.in_name
        (sym (project_seed-seed_of repo name target arch)
          ∙ e
          ∙ project_seed-seed_of repo' name' target' arch') in
    λ k. record { repo = er k; name = en k; target = et k; arch = ea k }
