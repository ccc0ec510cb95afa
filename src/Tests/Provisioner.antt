-- ===== src/Tests/Provisioner.antt =====
-- Inputs for the theorems on the provisioners.
use buildkit_operator.Base.{
  ℕ, ◌+◌, ◌*◌, refl, inl, true, false, pos, none, some, [], ◌∷◌, Bytes, Time, text, bytes_eq,
  hex_encode, time_sub, second, arith,
}
use buildkit_operator.Router.{fork_key, is_fork_key}
use buildkit_operator.Api.Types.{BuildProject, BuildProjectSpec, BuildProjectStatus}
use buildkit_operator.Api.Inflight.{
  inflight_id, start_inflight, adopt_legacy_inflight, expire_inflight, end_inflight_before,
  end_inflight_at, drop_index, cap_inflight,
}
use buildkit_operator.Api.Defaults.{apply_defaults}
use buildkit_operator.Provisioner.Retry.{got, failed, conflict, absent, retriable_status_err}
use buildkit_operator.Provisioner.Kube.{
  Attempt, GrantAttempt, retriable_touch, touch_attempt, start_build, end_build,
  start_inflight_build, end_inflight_build, grant_attempt, is_within, write_back, live_entries,
  stamp_grant,
}
use buildkit_operator.Provisioner.Kube.Builds.{
  Writes, Started, Ended, start_inflight_build-Writes, end_inflight_build-Writes,
}
use buildkit_operator.Provisioner.Kube.Grants.{History, IsSpaced, grants-IsSpaced}
use buildkit_operator.Provisioner.Kube.Projects.{Config, EnsureAnswers, ensure, Poll}
use buildkit_operator.Provisioner.Kube.Isolation.{parent_of, IsEnsured, ensure-IsEnsured}

abbrev plain : Bytes → Bytes
plain s = s

abbrev spec : BuildProjectSpec
spec = record {
  key = text "p01";
  repo = text "github.com/org/x";
  name = [];
  target = text "default";
  arch = text "amd64";
  storage_class = [];
  cache_volume_gi = pos 60;
  tier = text "warm";
  idle_timeout_sec = pos 900;
  snapshot_every_sec = pos 0;
  restore_from_snapshot = [];
  fanout = pos 0;
  s3_cache_policy = [];
  security_profile = text "rootless";
  resources = [];
}

abbrev running : BuildProjectStatus
running = record {
  phase = text "Ready";
  replicas = pos 1;
  endpoint = [];
  last_build_time = some 100;
  recent_build_times = [];
  last_snapshot = text "snap-1";
  inflight = record { id = text "61"; since = 100 } ∷ [];
  inflight_builds = pos 1;
  last_cache_export_grant = none;
}

abbrev project : BuildProject
project = record { name = text "p01"; creation_timestamp = 1; spec = spec; status = running }

-- A write that loses a race, and one that is accepted.
abbrev raced : Attempt
raced = record { current = got project; now = 200; updated = some conflict }

abbrev accepted : Attempt
accepted = record { current = got project; now = 300; updated = none }

start_inflight_build-Writes_example :
    Writes
      (Started plain (pos 1000) (text "p01") (text "b"))
      (start_inflight_build plain (pos 1000) (text "p01") (text "b") raced (accepted ∷ []))
unfolding touch_attempt write_back start_build end_build live_entries start_inflight inflight_id
    adopt_legacy_inflight expire_inflight retriable_touch retriable_status_err is_fork_key
    end_inflight_before end_inflight_at drop_index bytes_eq hex_encode cap_inflight time_sub
start_inflight_build-Writes_example =
    start_inflight_build-Writes plain (pos 1000) (text "p01") (text "b") raced (accepted ∷ [])
      ((conflict, refl, refl), inl refl)

end_inflight_build-Writes_example :
    Writes
      (Ended plain (pos 1000) (text "a"))
      (end_inflight_build plain (pos 1000) (text "a") raced (accepted ∷ []))
unfolding touch_attempt write_back start_build end_build live_entries start_inflight inflight_id
    adopt_legacy_inflight expire_inflight retriable_touch retriable_status_err is_fork_key
    end_inflight_before end_inflight_at drop_index bytes_eq hex_encode cap_inflight time_sub
end_inflight_build-Writes_example =
    end_inflight_build-Writes plain (pos 1000) (text "a") raced (accepted ∷ []) refl
      ((conflict, refl, refl), inl refl)

-- A grant at half past a second, and the next one as soon as the clock allows.
abbrev due : GrantAttempt
due = record { current = got project; since_now = 410400000000; now = 410500000000; updated = none }

abbrev granted : BuildProjectStatus
granted = record running { last_cache_export_grant = some 410000000000 }

abbrev due_later : GrantAttempt
due_later = record {
  current = got (record project { status = granted });
  since_now = 710100000000;
  now = 710200000000;
  updated = none;
}

abbrev granted_later : BuildProjectStatus
granted_later = record running { last_cache_export_grant = some 710000000000 }

-- The status that an attempt writes.
abbrev stamped_at : Time → BuildProjectStatus
stamped_at t = record running { last_cache_export_grant = some t }

two_grants : History (pos 300000000000) granted_later (710200000000 ∷ 410500000000 ∷ [])
unfolding grant_attempt stamp_grant is_within apply_defaults bytes_eq time_sub
two_grants =
    History.won
      (History.won (History.begin running) due
        (record { status = stamped_at 410500000000; refused = none }) refl refl (λ bp e. cc)
        (omega arith) granted refl)
      due_later (record { status = stamped_at 710200000000; refused = none }) refl refl (λ bp e. cc)
      (omega arith) granted_later refl

grants-IsSpaced_example : IsSpaced 300000000000 (710200000000 ∷ 410500000000 ∷ [])
grants-IsSpaced_example = grants-IsSpaced 300000000000 (omega arith) two_grants

abbrev kube : Config
kube = record {
  namespace = text "builds";
  port = pos 1234;
  wait = pos 60000000000;
  gateway_host = [];
  gateway_port = pos 0;
  default_storage_class = text "fast";
}

-- The daemon never comes up.
abbrev cold : ℕ → Poll
cold i = record { answer = failed absent; now = 50 + i * (2 * second); cancelled = false }

abbrev answers : EnsureAnswers
answers = record { canonical = got project; existing = failed absent; created = none; now = 7 }

ensure-IsEnsured_example :
    IsEnsured kube
      (parent_of spec answers.canonical)
      (fork_key spec.key)
      answers
      (ensure kube spec true answers)
ensure-IsEnsured_example = ensure-IsEnsured kube spec answers
