-- ===== src/Startup/Main.antt =====
-- `main` of cmd/main.go: its calls that may fail, each with its own `os.Exit(1)`.
use pd_manager.Common.{
  String, Bool, true, false, not, Option, none, some, List, [], ◌∷◌, ◌++◌, ◌==◌, if◌then◌else◌,
}
use pd_manager.Startup.Defs.{
  CertFiles, Flags, manager_options, Call, new_cert_watcher, new_manager, setup_controller,
  add_api_server, setup_webhooks, add_cert_watcher, add_healthz_check, add_readyz_check,
  start_manager,
}

-- A part of `main`: the calls that it makes, and its value, or none where the process has exited with
-- status 1.
abbrev pub Boot : Type 0 → Type 0
Boot A = List Call × Option A

abbrev pub pure : {A : Type 0} → A → Boot A
pure a = ([], some a)

abbrev pub continue : {A B : Type 0} → Option A → (A → Boot B) → Boot B
continue none f = ([], none)
continue (some a) f = f a

infixl 5 ◌>>=◌
abbrev pub ◌>>=◌ : {A B : Type 0} → Boot A → (A → Boot B) → Boot B
◌>>=◌ m f = (m.0 ++ (continue m.1 f).0, (continue m.1 f).1)

-- `if err != nil { os.Exit(1) }`
abbrev pub exit_if : Bool → Boot (Unit {0})
exit_if true = ([], none)
exit_if false = pure tt

module _ (fails : Call → Bool) where
  -- A call, and whether it returns an error.
  abbrev pub call : Call → Boot Bool
  call c = (c ∷ [], some (fails c))

  abbrev pub new_webhook_watcher : Flags → Boot (Option CertFiles)
  new_webhook_watcher flags = if flags.webhook_cert.path == "" then pure none else (do
    failed ← call (new_cert_watcher flags.webhook_cert)
    _ ← exit_if failed
    pure (some flags.webhook_cert))

  abbrev pub new_metrics_watcher : Flags → Boot (Option CertFiles)
  new_metrics_watcher flags = if flags.metrics_cert.path == "" then pure none else (do
    failed ← call (new_cert_watcher flags.metrics_cert)
    _ ← exit_if failed
    pure (some flags.metrics_cert))

  -- `os.Getenv("ENABLE_WEBHOOKS") != "false"`
  abbrev pub enable_webhooks_from : String → Boot (Unit {0})
  enable_webhooks_from env =
      if not (env == "false") then (do failed ← call setup_webhooks; exit_if failed) else pure tt

  -- The metrics certificate's watcher, if there is one.
  abbrev pub add_metrics_watcher : Option CertFiles → Boot (Unit {0})
  add_metrics_watcher none = pure tt
  add_metrics_watcher (some watcher) = do failed ← call (add_cert_watcher watcher); exit_if failed

  -- The webhook certificate's watcher, if there is one.
  abbrev pub add_webhook_watcher : Option CertFiles → Boot (Unit {0})
  add_webhook_watcher none = pure tt
  add_webhook_watcher (some watcher) = do failed ← call (add_cert_watcher watcher); exit_if failed

  -- `main`, from the flags on
  unfoldable pub main : Flags → (enable_webhooks : String) → Boot (Unit {0})
  unfolding manager_options
  main flags enable_webhooks = do
    webhook_cert_watcher ← new_webhook_watcher flags
    metrics_cert_watcher ← new_metrics_watcher flags
    manager_failed ← call (new_manager (manager_options flags))
    _ ← exit_if manager_failed
    controller_failed ← call setup_controller
    _ ← exit_if controller_failed
    api_failed ← call (add_api_server flags.api_addr)
    _ ← exit_if api_failed
    _ ← enable_webhooks_from enable_webhooks
    _ ← add_metrics_watcher metrics_cert_watcher
    _ ← add_webhook_watcher webhook_cert_watcher
    healthz_failed ← call add_healthz_check
    _ ← exit_if healthz_failed
    readyz_failed ← call add_readyz_check
    _ ← exit_if readyz_failed
    start_failed ← call start_manager
    exit_if start_failed
