-- ===== src/Api/Inflight/Release.antt =====
-- Which entry `endInflight` takes out, and what it reports.
use buildkit_operator.Base.{
  ℕ, zero, suc, ◌+◌, ◌<◌, ◌≡◌, refl, ap, sym, ◌∙◌, ◌⊎◌, inl, inr, Bool, true, false, ltb, Option,
  none, some, List, [], ◌∷◌, ◌++◌, length, take, drop, length-append, find_index, find_index-splits,
  find_index-none, is_empty, All, Bytes, bytes_eq, bytes_eq_refl, Time, arith, Option-cases,
}
use buildkit_operator.Api.Types.{InflightBuild}
use buildkit_operator.Api.Inflight.{
  inflight_cap, inflight_id, start_inflight, drop_index, end_inflight_at, end_inflight,
}
use buildkit_operator.Api.Inflight.Capacity.{cap_inflight_id}

-- The first entry that passes `p` is gone from `xs`, and all others stay in their order.
pub record Removes (p : InflightBuild → Bool) (xs ys : List InflightBuild) : Type 0 where
  pub before : List InflightBuild
  pub entry : InflightBuild
  pub after : List InflightBuild
  pub whole : xs ≡ before ++ (entry ∷ after)
  pub rest : ys ≡ before ++ after
  pub hit : p entry ≡ true
  pub first : All (λ (b : InflightBuild). p b ≡ false) before

abbrev pub Misses : (InflightBuild → Bool) → List InflightBuild → Type 0
Misses p xs = All (λ (b : InflightBuild). p b ≡ false) xs

length-Removes :
    {p : InflightBuild → Bool} {xs ys : List InflightBuild}
    → Removes p xs ys
    → length xs ≡ length ys + 1
length-Removes r = omega (
  arith,
  ap length r.whole,
  ap length r.rest,
  length-append r.before (r.entry ∷ r.after),
  length-append r.before r.after,
)

-- Cutting out the position of the first hit.
Removes-find_index :
    (p : InflightBuild → Bool) (xs : List InflightBuild) (i : ℕ)
    → find_index p xs ≡ some i
    → Removes p xs (take i xs ++ drop (suc i) xs)
Removes-find_index p xs i e =
    let (b, whole, hit, first) = find_index-splits p xs i e in
    record {
      before = take i xs;
      entry = b;
      after = drop (suc i) xs;
      whole = whole;
      rest = refl;
      hit = hit;
      first = first;
    }

module _ (sha256 : Bytes → Bytes) where
  -- The test for the entry of a token.
  abbrev pub names : Bytes → InflightBuild → Bool
  names token b = bytes_eq b.id (inflight_id sha256 token)

  end_inflight_at-drop :
      (x : InflightBuild) (xs : List InflightBuild) (token : Bytes) (cutoff : Option Time) (i : ℕ)
      → drop_index sha256 (x ∷ xs) token cutoff ≡ some i
      → end_inflight_at sha256 (x ∷ xs) token cutoff
        ≡ (take i (x ∷ xs) ++ drop (suc i) (x ∷ xs), true)
  unfolding end_inflight_at
  end_inflight_at-drop x xs token cutoff i e = rw (e, end_inflight_at)

  end_inflight_at-miss :
      (x : InflightBuild) (xs : List InflightBuild) (token : Bytes) (cutoff : Option Time)
      → drop_index sha256 (x ∷ xs) token cutoff ≡ none
      → end_inflight_at sha256 (x ∷ xs) token cutoff ≡ (x ∷ xs, false)
  unfolding end_inflight_at
  end_inflight_at-miss x xs token cutoff e = rw (e, end_inflight_at)

  drop_index_named :
      (xs : List InflightBuild) (token : Bytes) (cutoff : Option Time)
      → is_empty token ≡ false
      → drop_index sha256 xs token cutoff ≡ find_index (names token) xs
  unfolding drop_index
  drop_index_named xs token cutoff h = rw h

  -- The cutoff concerns no named build.
  pub end_inflight_at_named :
      (xs : List InflightBuild) (token : Bytes) (c d : Option Time)
      → is_empty token ≡ false
      → end_inflight_at sha256 xs token c ≡ end_inflight_at sha256 xs token d
  unfolding end_inflight_at
  end_inflight_at_named [] token c d h = refl
  end_inflight_at_named (x ∷ xs) token c d h =
      ap
        (λ (drop_at : Option ℕ). elim drop_at as (λ _. List InflightBuild × Bool) [
          | none ↦ (x ∷ xs, false)
          | some i ↦ (take i (x ∷ xs) ++ drop (suc i) (x ∷ xs), true)
        ])
        (drop_index_named (x ∷ xs) token c h ∙ sym (drop_index_named (x ∷ xs) token d h))

  -- The release of a named build, whatever the cutoff.
  abbrev pub NamedRelease : List InflightBuild → Bytes → List InflightBuild × Bool → Type 0
  NamedRelease xs token r =
      ((r.1 ≡ true) × Removes (names token) xs r.0)
      ⊎ ((r.1 ≡ false) × (r.0 ≡ xs) × Misses (names token) xs)

  -- For a token that is not empty, endInflight either reports true and takes out exactly the first
  -- entry of that token, or reports false and leaves the set as it was, which has no entry of that
  -- token.
  pub end_inflight_named :
      (xs : List InflightBuild) (token : Bytes) (cutoff : Option Time)
      → is_empty token ≡ false
      → NamedRelease xs token (end_inflight_at sha256 xs token cutoff)
  unfolding end_inflight_at
  end_inflight_named [] token cutoff h = inr (refl, refl, tt)
  end_inflight_named (x ∷ xs) token cutoff h =
      elim (Option-cases (find_index (names token) (x ∷ xs))) [
        | inl miss ↦
            rw
              (end_inflight_at-miss x xs token cutoff
                (drop_index_named (x ∷ xs) token cutoff h ∙ miss))
              (inr (refl, refl, find_index-none (names token) (x ∷ xs) miss))
        | inr (i, e) ↦
            rw
              (end_inflight_at-drop x xs token cutoff i
                (drop_index_named (x ∷ xs) token cutoff h ∙ e))
              (inl (refl, Removes-find_index (names token) (x ∷ xs) i e))
      ]

  -- A release that finds nothing leaves the set as it was.
  pub end_inflight_missed :
      (bs : List InflightBuild) (id : Bytes)
      → is_empty id ≡ false
      → (end_inflight sha256 bs id).1 ≡ false
      → (end_inflight sha256 bs id).0 ≡ bs
  unfolding end_inflight
  end_inflight_missed bs id named lost = elim (end_inflight_named bs id none named) [
    | inl (found, removes) ↦ cc
    | inr (missed, same, misses) ↦ same
  ]

  -- The release of an unnamed build, with the cutoff of `EndInflightBefore`.
  abbrev pub UnnamedRelease : List InflightBuild → Time → List InflightBuild × Bool → Type 0
  UnnamedRelease xs cutoff r =
      ((xs ≡ []) × (r ≡ ([], false)))
      ⊎ ((r.1 ≡ true) × Removes (λ b. ltb b.since cutoff) xs r.0)
      ⊎ ((r.1 ≡ true) × Misses (λ b. ltb b.since cutoff) xs × Removes (λ b. true) xs r.0)

  drop_index_unnamed :
      (xs : List InflightBuild) (cutoff : Time) (r : Option ℕ)
      → find_index (λ (b : InflightBuild). ltb b.since cutoff) xs ≡ r
      → drop_index sha256 xs [] (some cutoff) ≡ some (elim r [ none ↦ zero | some i ↦ i ])
  unfolding drop_index
  drop_index_unnamed xs cutoff none e = rw (e, drop_index)
  drop_index_unnamed xs cutoff (some i) e = rw (e, drop_index)

  -- Without a token and with a cutoff, endInflight reports false only on an empty set; else it
  -- takes out the first entry registered before the cutoff, or the first entry if there is none
  -- such, and nothing else.
  pub end_inflight_unnamed :
      (xs : List InflightBuild) (cutoff : Time)
      → UnnamedRelease xs cutoff (end_inflight_at sha256 xs [] (some cutoff))
  unfolding end_inflight_at
  end_inflight_unnamed [] cutoff = inl (refl, refl)
  end_inflight_unnamed (x ∷ xs) cutoff =
      elim (Option-cases (find_index (λ (b : InflightBuild). ltb b.since cutoff) (x ∷ xs))) [
        | inl miss ↦
            rw
              (end_inflight_at-drop x xs [] (some cutoff) zero
                (drop_index_unnamed (x ∷ xs) cutoff none miss))
              (inr (
                inr (
                  refl,
                  find_index-none _ (x ∷ xs) miss,
                  Removes-find_index (λ b. true) (x ∷ xs) zero refl,
                )))
        | inr (i, e) ↦
            rw
              (end_inflight_at-drop x xs [] (some cutoff) i
                (drop_index_unnamed (x ∷ xs) cutoff (some i) e))
              (inr (inl (refl, Removes-find_index _ (x ∷ xs) i e)))
      ]

  -- With no cutoff the oldest entry goes.
  pub end_inflight_oldest :
      (x : InflightBuild) (xs : List InflightBuild) → end_inflight sha256 (x ∷ xs) [] ≡ (xs, true)
  unfolding end_inflight end_inflight_at drop_index
  end_inflight_oldest x xs = refl

  find_index-append_new :
      (p : InflightBuild → Bool) (xs : List InflightBuild) (b : InflightBuild)
      → Misses p xs
      → p b ≡ true
      → find_index p (xs ++ (b ∷ [])) ≡ some (length xs)
  find_index-append_new p [] b h k = rw k
  find_index-append_new p (x ∷ xs) b h k = ground (arith, find_index-append_new p xs b h.1)

  cut_last :
      (xs : List InflightBuild) (b : InflightBuild)
      → take (length xs) (xs ++ (b ∷ [])) ++ drop (suc (length xs)) (xs ++ (b ∷ [])) ≡ xs
  cut_last [] b = refl
  cut_last (x ∷ xs) b = ap (◌∷◌ x) (cut_last xs b)

  end_inflight_at-index :
      (ys : List InflightBuild) (token : Bytes) (i : ℕ)
      → i < length ys
      → is_empty token ≡ false
      → find_index (names token) ys ≡ some i
      → end_inflight_at sha256 ys token none ≡ (take i ys ++ drop (suc i) ys, true)
  end_inflight_at-index [] token i lt h e = absurd (omega arith)
  end_inflight_at-index (y ∷ ys) token i lt h e =
      end_inflight_at-drop y ys token none i (drop_index_named (y ∷ ys) token none h ∙ e)

  -- Below the cap, and for a token that is not empty and names no entry yet, releasing the token
  -- that was just registered gives back the set and true.
  pub end_inflight-start_inflight :
      (xs : List InflightBuild) (token : Bytes) (now : Time)
      → is_empty token ≡ false
      → length xs < inflight_cap
      → Misses (names token) xs
      → end_inflight sha256 (start_inflight sha256 xs token now) token ≡ (xs, true)
  unfolding end_inflight start_inflight
  end_inflight-start_inflight xs token now h room fresh =
      let b : InflightBuild = record { id = inflight_id sha256 token; since = now } in
      let sized = length-append xs (b ∷ []) in
      rw (
        cap_inflight_id (xs ++ (b ∷ [])) (omega (arith, sized)),
        end_inflight_at-index (xs ++ (b ∷ [])) token (length xs) (omega (arith, sized)) h
            (find_index-append_new (names token) xs b fresh (bytes_eq_refl _)),
        cut_last xs b,
      )
