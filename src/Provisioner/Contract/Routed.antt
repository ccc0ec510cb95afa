-- ===== src/Provisioner/Contract/Routed.antt =====
-- `handleRoute` of cmd/buildd/route.go on any backend that keeps the contract: which builds are running
-- after a request.
use buildkit_operator.Base.{
  ℕ, arith, ◌≤◌, ◌<◌, ◌≡◌, refl, ap, sym, subst, ◌∙◌, ◌⊎◌, inl, inr, Bool, true, false,
  if◌then◌else◌, Option, none, List, [], ◌∷◌, length, is_empty, Bytes, bytes_eq, bytes_eq_iff,
  bytes_eq_refl, Time, Bool-cases, Option-cases,
}
use buildkit_operator.Api.Types.{InflightBuild}
use buildkit_operator.Api.Inflight.{inflight_cap, start_inflight, end_inflight}
use buildkit_operator.Api.Inflight.Capacity.{length-start_inflight}
use buildkit_operator.Api.Inflight.Release.{Misses, names, end_inflight-start_inflight}
use buildkit_operator.Policy.{Rule}
use buildkit_operator.Buildd.{RouteRequest, accepted}
use buildkit_operator.Buildd.Route.{
  Call, ensure, start, release, touch, routed, error_status, Handled, RouteAnswers, wait_for,
  routed_spec, routed_key, route_request, handle_route,
}
use buildkit_operator.Provisioner.Contract.{Backend}

module _ (sha256 : Bytes → Bytes) (now : Time) (b : Backend sha256 now) where
  open b use {State, builds, IsThere, prepare, begin, stamp}

  -- The calls of a handler, on the state of the backend.
  abbrev pub replay_on : List Call → State → State
  replay_on [] s = s
  replay_on (ensure spec untrusted ∷ log) s = replay_on log (prepare spec untrusted s)
  replay_on (start key id ∷ log) s = replay_on log (begin key id s)
  replay_on (release key id ∷ log) s = replay_on log (b.release key id s).0
  replay_on (touch key ∷ log) s = replay_on log (stamp key s)

  -- For the project `k`: a response that hands out the token leaves the build registered with the key
  -- of the response, and any other response leaves the builds of `k` as they were.
  abbrev pub Serves : Bytes → Bytes → State → Handled → Type 0
  Serves id k s h =
      ((key : Bytes) × (h.response ≡ routed key id true)
        × (builds k (replay_on h.log s)
            ≡ (if bytes_eq key k then start_inflight sha256 (builds key s) id now else builds k s)))
      ⊎ ((status : ℕ) × (h.response ≡ error_status status)
          × (builds k (replay_on h.log s) ≡ builds k s))

  -- The same behind the calls `ensure` and `start` of the key.
  abbrev ServesBegun : Bytes → Bytes → Bytes → State → Handled → Type 0
  ServesBegun key id k s h =
      ((h.response ≡ routed key id true)
        × (builds k (replay_on h.log (begin key id s))
            ≡ (if bytes_eq key k then start_inflight sha256 (builds key s) id now else builds k s)))
      ⊎ ((status : ℕ) × (h.response ≡ error_status status)
          × (builds k (replay_on h.log (begin key id s)) ≡ builds k s))

  begin_builds_own :
      (key id : Bytes) (s : State)
      → IsThere key s
      → builds key (begin key id s) ≡ start_inflight sha256 (builds key s) id now
  begin_builds_own key id s there = b.begin_builds key id s key there ∙ rw (bytes_eq_refl key)

  -- A build that is begun and released leaves the builds of every project as they were.
  begin-release :
      (key id : Bytes) (s : State) (k : Bytes)
      → is_empty id ≡ false
      → IsThere key s
      → length (builds key s) < inflight_cap
      → Misses (names sha256 id) (builds key s)
      → builds k (b.release key id (begin key id s)).0 ≡ builds k s
  begin-release key id s k minted there room fresh =
      let begun = begin_builds_own key id s there in
      let small =
        subst (λ (bs : List InflightBuild). length bs ≤ inflight_cap) (sym begun)
          (omega (arith, length-start_inflight sha256 (builds key s) id now)) in
      let undone =
        ap (λ (bs : List InflightBuild). (end_inflight sha256 bs id).0) begun
        ∙ ap (λ (r : List InflightBuild × Bool). r.0)
            (end_inflight-start_inflight sha256 (builds key s) id now minted room fresh) in
      b.release_builds key id (begin key id s) k minted small
      ∙ (elim (Bool-cases (bytes_eq key k)) [
        | inl same ↦ rw same (undone ∙ ap (λ (j : Bytes). builds j s) ((bytes_eq_iff key k).0 same))
        | inr apart ↦ rw apart (b.begin_builds key id s k there ∙ rw apart)
      ])

  -- The daemon comes up or the build is given back.
  wait_for-Serves :
      (key id : Bytes) (a : RouteAnswers) (s : State) (k : Bytes)
      → is_empty id ≡ false
      → IsThere key s
      → length (builds key s) < inflight_cap
      → Misses (names sha256 id) (builds key s)
      → ServesBegun key id k s (wait_for key id a)
  unfolding wait_for
  wait_for-Serves key id a s k minted there room fresh =
      let begun = b.begin_builds key id s k there in
      let undone = begin-release key id s k minted there room fresh in
      elim (Bool-cases a.ready) [
        | inl warm ↦ rw warm (inl (refl, begun))
        | inr cold ↦ rw cold (elim (Bool-cases a.has_slot) [
          | inr gone ↦ rw gone (inr (499, refl, undone))
          | inl slot ↦ rw slot (elim (Option-cases a.waited) [
            | inl up ↦ rw up (inl (refl, begun))
            | inr (e, late) ↦ rw late (inr (504, refl, undone))
          ])
        ])
      ]

  -- The request, from the state that `prepare` left.
  Serves-from :
      (key id k : Bytes) (s s' : State)
      → builds key s' ≡ builds key s
      → builds k s' ≡ builds k s
      → (h : Handled) → ServesBegun key id k s' h
      → ((key' : Bytes) × (h.response ≡ routed key' id true)
          × (builds k (replay_on h.log (begin key id s')) ≡ (
              if bytes_eq key' k
              then start_inflight sha256 (builds key' s) id now
              else builds k s)))
        ⊎ ((status : ℕ) × (h.response ≡ error_status status)
            × (builds k (replay_on h.log (begin key id s')) ≡ builds k s))
  Serves-from key id k s s' own others h (inl (served, counted)) = inl (
    key,
    served,
    counted
        ∙ ap
            (λ (bs : List InflightBuild).
              if bytes_eq key k then start_inflight sha256 bs id now else builds k s')
            own
        ∙ ap
            (λ (bs : List InflightBuild).
              if bytes_eq key k then start_inflight sha256 (builds key s) id now else bs)
            others,
  )
  Serves-from key id k s s' own others h (inr (status, answered_with, kept)) =
      inr (status, answered_with, kept ∙ others)

  module _ (path_match : Bytes → Bytes → Option Bool) (rules : Option (List Rule)) where
    -- On any backend that keeps the contract, for a request that decodeReq accepts, a token that
    -- is not empty and that no build of the routed key has, and a key with room below the cap,
    -- handleRoute's calls leave the builds of every project as they were but for this: the token
    -- is registered with the key of the response exactly if the response hands it out, and a
    -- response that is an error leaves no build behind.
    pub handle_route-Serves :
        (req : RouteRequest) (id : Bytes) (a : RouteAnswers) (s : State) (k : Bytes)
        → is_empty id ≡ false
        → length (builds (routed_key sha256 path_match rules req) s) < inflight_cap
        → Misses (names sha256 id) (builds (routed_key sha256 path_match rules req) s)
        → Serves id k s (handle_route sha256 path_match rules (accepted req) id a)
    unfolding handle_route route_request routed_key
    handle_route-Serves req id a s k minted room fresh =
        let spec = routed_spec sha256 path_match rules req in
        let key = routed_key sha256 path_match rules req in
        let s' = prepare spec req.untrusted s in
        let own = b.prepare_builds spec req.untrusted s key in
        let others = b.prepare_builds spec req.untrusted s k in
        elim (Option-cases a.ensured) [
          | inr (e, failed) ↦ rw failed (inr (500, refl, others))
          | inl fine ↦
              let a' : RouteAnswers = record a { ensured = none } in
              rw fine (
                Serves-from key id k s s' own others (wait_for key id a') (
                  wait_for-Serves key id a' s' k minted (b.prepare_there spec req.untrusted s)
                    (subst (λ (bs : List InflightBuild). length bs < inflight_cap) (sym own) room)
                    (subst (λ (bs : List InflightBuild). Misses (names sha256 id) bs) (sym own)
                      fresh)))
        ]
