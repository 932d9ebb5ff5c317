-- ===== src/Translator/Health.antt =====
-- What `buildProbe` makes of the health checks of a role.
use pd_manager.Common.{◌≡◌, pos, ℤ, String, Option, none, some, refl, arith, eq_iff, eqb_ℤ_iff}
use pd_manager.Api.{ProbeSpec}
use pd_manager.Config.Merge.{Falls}
use pd_manager.Workload.{Probe, from_int}
use pd_manager.Translator.Probes.{build_probe}

-- The probe of a health check, whose path is /health and whose port is 8000 unless it says otherwise.
abbrev pub IsProbeOf : Option ProbeSpec → Option Probe → Type 0
IsProbeOf none built = built ≡ none
IsProbeOf (some spec) built =
    (path : String) × (port : ℤ) × Falls "" spec.http_path "/health" path
    × Falls (pos 0) spec.port (pos 8000) port
    × (built
        ≡ some (record {
          http_get = some (record { path = path; port = from_int port });
          initial_delay_seconds = spec.initial_delay_seconds;
          period_seconds = spec.period_seconds;
          timeout_seconds = spec.timeout_seconds;
          failure_threshold = spec.failure_threshold;
        }))

pub build_probe-IsProbeOf : (spec : Option ProbeSpec) → IsProbeOf spec (build_probe spec)
unfolding build_probe
build_probe-IsProbeOf none = refl
build_probe-IsProbeOf (some spec) = (
  _,
  _,
  ground (arith, eq_iff spec.http_path ""),
  ground (arith, eqb_ℤ_iff spec.port (pos 0)),
  refl,
)
