-- ===== src/Translator/Probes.antt =====
-- HTTP probes with their defaults.
use pd_manager.Common.{ℤ, pos, eqb_ℤ, Option, none, some, ◌==◌, if◌then◌else◌}
use pd_manager.Api.{ProbeSpec}
use pd_manager.Workload.{Probe, IntOrString, from_int}

-- `portIntOrString`
abbrev port_int_or_string : ℤ → IntOrString
port_int_or_string port = from_int port

unfoldable pub build_probe : Option ProbeSpec → Option Probe
build_probe none = none
build_probe (some spec) =
    let path = if spec.http_path == "" then "/health" else spec.http_path in
    let port = if eqb_ℤ spec.port (pos 0) then pos 8000 else spec.port in
    some (record {
      http_get = some (record { path = path; port = port_int_or_string port });
      initial_delay_seconds = spec.initial_delay_seconds;
      period_seconds = spec.period_seconds;
      timeout_seconds = spec.timeout_seconds;
      failure_threshold = spec.failure_threshold;
    })
