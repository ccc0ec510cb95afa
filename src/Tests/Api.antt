-- ===== src/Tests/Api.antt =====
-- Inputs for the theorems on the inflight set, the cadence ring and the defaults.
use buildkit_operator.Base.{
  ◌≡◌, refl, arith, true, pos, none, some, [], ◌∷◌, Bytes, text, hex_encode, bytes_eq,
}
use buildkit_operator.Api.Types.{BuildProjectSpec, InflightBuild, BuildProjectStatus}
use buildkit_operator.Api.Inflight.{end_inflight, start_inflight, inflight_id}
use buildkit_operator.Api.Inflight.Release.{end_inflight-start_inflight}
use buildkit_operator.Api.Adaptive.{RecordsBuild, record_build_time, record_build_time-RecordsBuild}

-- A stand-in for the digest that runs.
abbrev plain_digest : Bytes → Bytes
plain_digest s = s

abbrev early : InflightBuild
early = record { id = text "61"; since = 10 }

abbrev late : InflightBuild
late = record { id = text "62"; since = 20 }

end_inflight-start_inflight_example :
    end_inflight plain_digest
      (start_inflight plain_digest (early ∷ late ∷ []) (text "c") 30)
      (text "c")
    ≡ (early ∷ late ∷ [], true)
unfolding inflight_id hex_encode bytes_eq
end_inflight-start_inflight_example =
    end_inflight-start_inflight plain_digest (early ∷ late ∷ []) (text "c") 30 refl (omega arith)
      (refl, (refl, tt))

abbrev bare_status : BuildProjectStatus
bare_status = record {
  phase = text "Warm";
  replicas = pos 1;
  endpoint = [];
  last_build_time = some 100;
  recent_build_times = [];
  last_snapshot = [];
  inflight = [];
  inflight_builds = pos 3;
  last_cache_export_grant = none;
}

record_build_time-RecordsBuild_example :
    RecordsBuild (5 ∷ 10 ∷ []) 20 (record_build_time (5 ∷ 10 ∷ []) 20)
record_build_time-RecordsBuild_example = record_build_time-RecordsBuild (5 ∷ 10 ∷ []) 20

abbrev unset_spec : BuildProjectSpec
unset_spec = record {
  key = text "p0123456789abcdef";
  repo = text "github.com/socialgouv/x";
  name = [];
  target = text "default";
  arch = text "amd64";
  storage_class = [];
  cache_volume_gi = pos 0;
  tier = [];
  idle_timeout_sec = pos 0;
  snapshot_every_sec = pos 0;
  restore_from_snapshot = [];
  fanout = pos 2;
  s3_cache_policy = [];
  security_profile = [];
  resources = [];
}
