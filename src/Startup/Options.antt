-- ===== src/Startup/Options.antt =====
-- The TLS options of the webhook server and of the metrics server.
use pd_manager.Common.{◌≡◌, ◌≢◌, ◌↔◌, ◌⊎◌, false, Any, arith, eq_iff}
use pd_manager.Startup.Defs.{
  CertFiles, Flags, TlsOpt, disable_http2, watched_certificate, manager_options, watched,
  with_watcher, initial_tls_opts,
}

-- The options of a server with the certificate `files`.
abbrev pub IsTlsOpt : Flags → CertFiles → TlsOpt → Type 0
IsTlsOpt flags files o =
    ((o ≡ disable_http2) × (flags.enable_http2 ≡ false))
    ⊎ ((o ≡ watched_certificate files) × (files.path ≢ ""))

with_watcher_iff :
    (flags : Flags) (files : CertFiles) (o : TlsOpt)
    → Any (λ x. x ≡ o) (with_watcher (watched files) (initial_tls_opts flags))
      ↔ IsTlsOpt flags files o
with_watcher_iff flags files o = ground (arith, eq_iff files.path "")

-- The webhook server and the metrics server disable HTTP/2 exactly where the flag does not enable
-- it, and each takes its certificate from the watcher of its own files and only if a directory is
-- given for them; they have no other TLS option.
pub manager_options_iff :
    (flags : Flags) (o : TlsOpt)
    → (Any (λ x. x ≡ o) (manager_options flags).webhook_tls_opts
        ↔ IsTlsOpt flags flags.webhook_cert o)
      × (Any (λ x. x ≡ o) (manager_options flags).metrics.tls_opts
          ↔ IsTlsOpt flags flags.metrics_cert o)
unfolding manager_options
manager_options_iff flags o =
    (with_watcher_iff flags flags.webhook_cert o, with_watcher_iff flags flags.metrics_cert o)
