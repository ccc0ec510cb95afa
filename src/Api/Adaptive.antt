-- ===== src/Api/Adaptive.antt =====
-- api/v1alpha1/adaptive.go: the cadence ring that drives the adaptive idle window.
use buildkit_operator.Base.{
  ℕ, ◌+◌, ◌-◌, ◌*◌, ◌≡◌, refl, Bool, true, ltb, if◌then◌else◌, pos, leb_ℤ, List, [], ◌∷◌, ◌++◌,
  length, drop, filter, count_if, All, All-append, All-drop, filter-All, length-append, length-drop,
  drop-append_le, min, Time, hour, time_sub, arith, Bool-cases, inl, inr,
}

abbrev pub adaptive_window : ℕ
adaptive_window = 24 * hour

abbrev pub recent_build_times_cap : ℕ
recent_build_times_cap = 30

-- `now.Sub(t) <= AdaptiveWindow`, the test of both helpers.
abbrev pub in_window : Time → Time → Bool
in_window now t = leb_ℤ (time_sub now t) (pos adaptive_window)

-- `RecordBuildTime`.
unfoldable pub record_build_time : List Time → Time → List Time
record_build_time times now =
    let out = filter (in_window now) times ++ (now ∷ []) in
    if ltb recent_build_times_cap (length out)
    then drop (length out - recent_build_times_cap) out
    else out

-- `BuildsInWindow`.
unfoldable pub builds_in_window : List Time → Time → ℕ
builds_in_window times now = count_if (in_window now) times

in_window_now : (now : Time) → in_window now now ≡ true
unfolding time_sub
in_window_now now = ground arith

record_build_time-drop :
    (times : List Time) (now : Time)
    → record_build_time times now
      ≡ drop
          (length (filter (in_window now) times) + 1 - recent_build_times_cap)
          (filter (in_window now) times)
        ++ (now ∷ [])
unfolding record_build_time
record_build_time-drop times now =
    let kept = filter (in_window now) times in
    let sized = length-append kept (now ∷ []) in
    let cut =
      drop-append_le (length kept + 1 - recent_build_times_cap) kept (now ∷ []) (omega arith) in
    elim (Bool-cases (ltb recent_build_times_cap (length (kept ++ (now ∷ []))))) [
      | inl over ↦ rw over (rw sized cut)
      | inr fits ↦
          let e : length kept + 1 - recent_build_times_cap ≡ 0 = ground (arith, sized) in
          rw (fits, e)
    ]

count_if-filter : (p : Time → Bool) (ts : List Time) → count_if p ts ≡ length (filter p ts)
count_if-filter p [] = refl
count_if-filter p (t ∷ ts) = ground (arith, count_if-filter p ts)

count_if-All :
    (p : Time → Bool) (ts : List Time) → All (λ t. p t ≡ true) ts → count_if p ts ≡ length ts
count_if-All p [] h = refl
count_if-All p (t ∷ ts) h = ground (arith, count_if-All p ts h.1)

-- The ring after a build: the newest builds of the window, the new one last.
pub record RecordsBuild (times : List Time) (now : Time) (ring : List Time) : Type 0 where
  pub front : List Time
  pub newest_last : ring ≡ front ++ (now ∷ [])
  pub recent : All (λ t. in_window now t ≡ true) ring
  pub counted : builds_in_window ring now ≡ length ring
  pub sized : length ring ≡ min (builds_in_window times now + 1) recent_build_times_cap

-- The ring after a build ends in that build, holds only times inside the window, counts as many
-- builds as it has entries, and has one more entry than the window had builds, up to the cap.
pub record_build_time-RecordsBuild :
    (times : List Time) (now : Time) → RecordsBuild times now (record_build_time times now)
unfolding builds_in_window
record_build_time-RecordsBuild times now =
    let kept = filter (in_window now) times in
    let n = length kept + 1 - recent_build_times_cap in
    let front = drop n kept in
    let e = record_build_time-drop times now in
    let recent =
      All-append _ front (now ∷ []) (All-drop _ n kept (filter-All (in_window now) times))
        (in_window_now now, tt) in
    record {
      front = front;
      newest_last = e;
      recent = rw e recent;
      counted = rw e (count_if-All (in_window now) (front ++ (now ∷ [])) recent);
      sized =
          rw (e, count_if-filter (in_window now) times)
            (omega (arith, length-append front (now ∷ []), length-drop n kept));
    }
