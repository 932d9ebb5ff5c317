-- ===== src/Startup/Defs.antt =====
-- The flags of cmd/main.go, the options that it makes of them, and the calls that may fail.
use pd_manager.Common.{
  String, Bool, true, false, not, Option, none, some, List, [], ◌∷◌, ◌++◌, ◌==◌, if◌then◌else◌,
}

-- The files of a certificate; `filepath.Join` of the directory and each name is left out.
pub record CertFiles : Type 0 where
  pub path : String
  pub cert_name : String
  pub key_name : String

pub record Flags : Type 0 where
  pub metrics_addr : String
  pub probe_addr : String
  pub api_addr : String
  pub enable_leader_election : Bool
  pub secure_metrics : Bool
  pub webhook_cert : CertFiles
  pub metrics_cert : CertFiles
  pub enable_http2 : Bool

-- The defaults of the flags.
abbrev pub default_flags : Flags
default_flags = record {
  metrics_addr = "0";
  probe_addr = ":8081";
  api_addr = ":8080";
  enable_leader_election = false;
  secure_metrics = true;
  webhook_cert = record { path = ""; cert_name = "tls.crt"; key_name = "tls.key" };
  metrics_cert = record { path = ""; cert_name = "tls.crt"; key_name = "tls.key" };
  enable_http2 = false;
}

-- A function on the TLS configuration: the closure `disableHTTP2`, or one that takes the
-- certificate from a watcher.
pub data TlsOpt : Type 0 where
  disable_http2 : TlsOpt
  watched_certificate : CertFiles → TlsOpt

pub record MetricsServerOptions : Type 0 where
  pub bind_address : String
  pub secure_serving : Bool
  pub tls_opts : List TlsOpt
  -- `filters.WithAuthenticationAndAuthorization`
  pub authorized : Bool

pub record ManagerOptions : Type 0 where
  pub metrics : MetricsServerOptions
  pub webhook_tls_opts : List TlsOpt
  pub health_probe_bind_address : String
  pub leader_election : Bool
  pub leader_election_id : String

abbrev pub initial_tls_opts : Flags → List TlsOpt
initial_tls_opts flags = if not flags.enable_http2 then disable_http2 ∷ [] else []

-- The certificate files of a server, where a directory is given.
abbrev pub watched : CertFiles → Option CertFiles
watched files = if files.path == "" then none else some files

-- `append` of the watcher's option, where there is a watcher
abbrev pub with_watcher : Option CertFiles → List TlsOpt → List TlsOpt
with_watcher none opts = opts
with_watcher (some files) opts = opts ++ watched_certificate files ∷ []

unfoldable pub manager_options : Flags → ManagerOptions
manager_options flags = record {
  metrics = record {
    bind_address = flags.metrics_addr;
    secure_serving = flags.secure_metrics;
    tls_opts = with_watcher (watched flags.metrics_cert) (initial_tls_opts flags);
    authorized = flags.secure_metrics;
  };
  webhook_tls_opts = with_watcher (watched flags.webhook_cert) (initial_tls_opts flags);
  health_probe_bind_address = flags.probe_addr;
  leader_election = flags.enable_leader_election;
  leader_election_id = "27281c4e.pdai.io";
}

-- A call of the start-up that may fail.
pub data Call : Type 0 where
  new_cert_watcher : CertFiles → Call
  new_manager : ManagerOptions → Call
  setup_controller : Call
  add_api_server : (addr : String) → Call
  setup_webhooks : Call
  add_cert_watcher : CertFiles → Call
  add_healthz_check add_readyz_check : Call
  start_manager : Call
