-- ===== src/Tests/Startup.antt =====
-- The start-up with the default flags, where no call fails.
use pd_manager.Common.{◌≡◌, ◌↔◌, inl, inr, Bool, false, Any, refl}
use pd_manager.Startup.{default_flags, disable_http2, Call, start_manager, manager_options, main}
use pd_manager.Startup.Started.{IsStarted, main-IsStarted}
use pd_manager.Startup.Options.{IsTlsOpt, manager_options_iff}

abbrev no_failure : Call → Bool
no_failure c = false

manager_started : Any (λ c. c ≡ start_manager) (main no_failure default_flags "").0
unfolding main
manager_started = inr (inr (inr (inr (inr (inr (inl refl))))))

main-IsStarted_example : IsStarted no_failure default_flags "" (main no_failure default_flags "")
main-IsStarted_example = main-IsStarted no_failure default_flags "" manager_started

manager_options_iff_example :
    (Any (λ x. x ≡ disable_http2) (manager_options default_flags).webhook_tls_opts
      ↔ IsTlsOpt default_flags default_flags.webhook_cert disable_http2)
    × (Any (λ x. x ≡ disable_http2) (manager_options default_flags).metrics.tls_opts
        ↔ IsTlsOpt default_flags default_flags.metrics_cert disable_http2)
manager_options_iff_example = manager_options_iff default_flags disable_http2
