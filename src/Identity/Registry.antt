-- ===== src/Identity/Registry.antt =====
-- `NewVerifier`: which providers the registry of a verifier has, and under which issuer.
use buildkit_operator.Base.{
  ◌≡◌, refl, sym, ap, ◌∙◌, subst, ◌⊎◌, inl, inr, false, ◌||◌, Option, none, some, List, [], ◌∷◌,
  is_empty, Has, All, All-mono, Bytes, bytes_eq, bytes_eq_iff, bytes_eq_refl, trim_right_slashes,
  Dict, lookup, insert, lookup-insert, arith, Bool-cases, Option-cases,
}
use buildkit_operator.Identity.{
  Provider, OidcConfig, Mapper, builtin, ProviderState, Verifier, ConfigError, incomplete,
  unknown_kind, duplicate, Registered, refused, registered, off, bad, built, register_all,
  new_verifier,
}
use buildkit_operator.Policy.{normalize_allowlist}

insert-here :
    (k : Bytes) (st : ProviderState) (m : Dict ProviderState) → lookup k (insert k st m) ≡ some st
insert-here k st m = lookup-insert k k st m ∙ rw (bytes_eq_refl k)

-- A write under a new key keeps what was there.
insert-kept :
    (k j : Bytes) (st x : ProviderState) (m : Dict ProviderState)
    → lookup k m ≡ none
    → lookup j m ≡ some x
    → lookup j (insert k st m) ≡ some x
insert-kept k j st x m fresh found = lookup-insert k j st m ∙ (elim (Bool-cases (bytes_eq k j)) [
  | inl same ↦ let again = ap (λ (i : Bytes). lookup i m) ((bytes_eq_iff k j).0 same) in absurd cc
  | inr apart ↦ rw apart found
])

module _ (url_host : Bytes → Option Bytes) where
  -- A state is that of a provider of the list, under its issuer without the slashes at the end.
  pub record IsFrom (all : List Provider) (k : Bytes) (st : ProviderState) : Type 0 where
    pub listed : Has (λ p. st.cfg ≡ p) all
    pub keyed : k ≡ trim_right_slashes st.cfg.issuer
    pub mapped : builtin url_host st.cfg ≡ some st.mapper
    pub issued : is_empty st.cfg.issuer ≡ false
    pub aimed : is_empty st.cfg.audience ≡ false

  abbrev pub IsSound : List Provider → Dict ProviderState → Type 0
  IsSound all m = (k : Bytes) (st : ProviderState) → lookup k m ≡ some st → IsFrom all k st

  -- A sound state joins a sound registry.
  pub insert-IsSound :
      (all : List Provider) (k : Bytes) (st : ProviderState) (m : Dict ProviderState)
      → IsFrom all k st
      → IsSound all m
      → IsSound all (insert k st m)
  insert-IsSound all k st m from sound j st' found =
      let at = sym (lookup-insert k j st m) ∙ found in
      elim (Bool-cases (bytes_eq k j)) [
        | inl same ↦
            let this : st ≡ st' = grind (arith, at, same) in
            subst (λ (x : ProviderState). IsFrom all j x) this
              (subst (λ (i : Bytes). IsFrom all i st) ((bytes_eq_iff k j).0 same) from)
        | inr apart ↦ sound j st' (grind (arith, at, apart))
      ]

  -- What a provider is registered with.
  pub record IsRegistered (m : Dict ProviderState) (p : Provider) : Type 0 where
    pub state : ProviderState
    pub found : lookup (trim_right_slashes p.issuer) m ≡ some state
    pub own : state.cfg ≡ p

  -- The registry that the loop leaves: sound, with what was there, and with each provider of the list.
  pub record Registers (all : List Provider) (m : Dict ProviderState) (ps : List Provider)
      (m' : Dict ProviderState) : Type 0 where
    pub sound : IsSound all m'
    pub kept : (k : Bytes) (st : ProviderState) → lookup k m ≡ some st → lookup k m' ≡ some st
    pub whole : All (IsRegistered m') ps

  -- One turn of the loop that does not fail.
  record Turn (p : Provider) (m : Dict ProviderState) : Type 0 where
    pub mapper : Mapper
    pub mapped : builtin url_host p ≡ some mapper
    pub fresh : lookup (trim_right_slashes p.issuer) m ≡ none
    pub issued : is_empty p.issuer ≡ false
    pub aimed : is_empty p.audience ≡ false

  abbrev entered : (p : Provider) → (m : Dict ProviderState) → Turn p m → Dict ProviderState
  entered p m t =
      insert (trim_right_slashes p.issuer) (record { cfg = p; mapper = t.mapper; known = false }) m

  register_all-Turn :
      (p : Provider) (ps : List Provider) (m m' : Dict ProviderState)
      → register_all url_host (p ∷ ps) m ≡ registered m'
      → (t : Turn p m) × (register_all url_host ps (entered p m t) ≡ registered m')
  unfolding register_all
  register_all-Turn p ps m m' e = elim (Bool-cases (is_empty p.issuer || is_empty p.audience)) [
    | inl lacking ↦
        let fails : register_all url_host (p ∷ ps) m ≡ refused incomplete = rw lacking refl in
        absurd cc
    | inr complete ↦ elim (Option-cases (builtin url_host p)) [
      | inl unknown ↦
          let fails : register_all url_host (p ∷ ps) m ≡ refused unknown_kind =
            rw (complete, unknown) refl in
          absurd cc
      | inr (mapper, mapped) ↦ elim (Option-cases (lookup (trim_right_slashes p.issuer) m)) [
        | inr (dup, there) ↦
            let fails : register_all url_host (p ∷ ps) m ≡ refused duplicate =
              rw (complete, mapped, there) refl in
            absurd cc
        | inl fresh ↦
            let t : Turn p m = record {
              mapper = mapper;
              mapped = mapped;
              fresh = fresh;
              issued = ground arith;
              aimed = ground arith;
            } in
            let turns : register_all url_host (p ∷ ps) m
                ≡ register_all url_host ps (entered p m t) =
              rw (complete, mapped, fresh) refl in
            (t, sym turns ∙ e)
      ]
    ]
  ]

  register_all-Registers :
      (all ps : List Provider) (m m' : Dict ProviderState)
      → All (λ p. Has (λ q. p ≡ q) all) ps
      → IsSound all m
      → register_all url_host ps m ≡ registered m'
      → Registers all m ps m'
  unfolding register_all
  register_all-Registers all [] m m' listed sound e =
      let same : m ≡ m' = cc in
      subst (λ (x : Dict ProviderState). Registers all m [] x) same
        (record { sound = sound; kept = λ k st found. found; whole = tt })
  register_all-Registers all (p ∷ ps) m m' listed sound e =
      let (t, rest) = register_all-Turn p ps m m' e in
      let k = trim_right_slashes p.issuer in
      let st : ProviderState = record { cfg = p; mapper = t.mapper; known = false } in
      let from : IsFrom all k st = record {
        listed = listed.0;
        keyed = refl;
        mapped = t.mapped;
        issued = t.issued;
        aimed = t.aimed;
      } in
      let later =
        register_all-Registers all ps (entered p m t) m' listed.1
          (insert-IsSound all k st m from sound) rest in
      record {
        sound = later.sound;
        kept = λ j x found. later.kept j x (insert-kept k j st x m t.fresh found);
        whole = (
          record { state = st; found = later.kept k st (insert-here k st m); own = refl },
          later.whole,
        );
      }

  list_All : (xs : List Provider) → All (λ p. Has (λ q. p ≡ q) xs) xs
  list_All [] = tt
  list_All (x ∷ xs) = (
    inl refl,
    All-mono (λ p. Has (λ q. p ≡ q) xs) (λ p. Has (λ q. p ≡ q) (x ∷ xs)) (λ p h. inr h) xs
        (list_All xs),
  )

  nothing-IsSound : (all : List Provider) → IsSound all []
  unfolding lookup
  nothing-IsSound all k st found = absurd cc

  Registered-cases :
      (r : Registered)
      → ((e : ConfigError) × (r ≡ refused e)) ⊎ ((m : Dict ProviderState) × (r ≡ registered m))
  Registered-cases (refused e) = inl (e, refl)
  Registered-cases (registered m) = inr (m, refl)

  -- In a verifier that NewVerifier builds each provider of the configuration is found under its
  -- issuer without the slashes at the end, and each entry is that of a provider of the
  -- configuration under that issuer, with its mapping, an issuer and an audience.
  pub new_verifier-Registers :
      (c : OidcConfig) (v : Verifier)
      → new_verifier url_host c ≡ built v
      → Registers c.providers [] c.providers v.by_issuer
  unfolding new_verifier
  new_verifier-Registers c v e = elim (Bool-cases (c.disable || is_empty c.providers)) [
    | inl idle ↦ let none_built : new_verifier url_host c ≡ off = rw idle refl in absurd cc
    | inr live ↦ elim (Registered-cases (register_all url_host c.providers [])) [
      | inl (why, refuses) ↦
          let fails : new_verifier url_host c ≡ bad why = rw (live, refuses) refl in absurd cc
      | inr (m, registers) ↦
          let made : new_verifier url_host c
              ≡ built (record { by_issuer = m; allowlist = normalize_allowlist c.repo_allowlist }) =
            rw (live, registers) refl in
          let same : m ≡ v.by_issuer = cc in
          subst (λ (x : Dict ProviderState). Registers c.providers [] c.providers x) same
            (register_all-Registers c.providers c.providers [] m (list_All c.providers)
              (nothing-IsSound c.providers) registers)
    ]
  ]
