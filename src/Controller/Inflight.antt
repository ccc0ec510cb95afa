-- ===== src/Controller/Inflight.antt =====
-- The uncached reads of the inflight set in internal/controller/autogrow.go.
use buildkit_operator.Base.{ℕ, List, [], length, Time}
use buildkit_operator.Api.Types.{BuildProject, InflightBuild}
use buildkit_operator.Api.Inflight.{adopt_legacy_inflight, expire_inflight}
use buildkit_operator.Controller.Effects.{Read, found, missing, unreadable, Result, ok, err}
use buildkit_operator.Controller.Elasticity.{Settings, max_build_age}

-- `freshInflightEntries`, over the answer to its read.
unfoldable pub fresh_inflight_entries :
    Settings → Read BuildProject → Time → Result (List InflightBuild)
fresh_inflight_entries r (found cur) now =
    ok (expire_inflight (adopt_legacy_inflight cur.status).0.inflight now (max_build_age r)).0
fresh_inflight_entries r missing now = ok []
fresh_inflight_entries r (unreadable e) now = err e

-- `freshInflight`.
unfoldable pub fresh_inflight : Settings → Read BuildProject → Time → Result ℕ
fresh_inflight r answer now = elim (fresh_inflight_entries r answer now) [
  | ok live ↦ ok (length live)
  | err e ↦ err e
]
