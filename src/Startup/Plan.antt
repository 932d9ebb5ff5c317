-- ===== src/Startup/Plan.antt =====
-- `main` as a list of calls, each made if those before it have succeeded.
use pd_manager.Common.{
  ◌≡◌, inl, inr, String, Bool, false, not, Option, none, some, List, [], ◌∷◌, ◌++◌, All, refl, ap,
  ◌==◌, if◌then◌else◌, Bool-cases,
}
use pd_manager.Startup.Defs.{
  CertFiles, Flags, manager_options, watched, Call, new_cert_watcher, new_manager, setup_controller,
  add_api_server, setup_webhooks, add_cert_watcher, add_healthz_check, add_readyz_check,
  start_manager,
}
use pd_manager.Startup.Main.{
  Boot, call, exit_if, new_webhook_watcher, new_metrics_watcher, enable_webhooks_from,
  add_metrics_watcher, add_webhook_watcher, main, pure, ◌>>=◌,
}

-- A call on the files of a certificate, where a directory is given.
abbrev pub for_watcher : (CertFiles → Call) → Option CertFiles → List Call
for_watcher on none = []
for_watcher on (some files) = on files ∷ []

abbrev pub webhook_calls : String → List Call
webhook_calls env = if not (env == "false") then setup_webhooks ∷ [] else []

-- All calls that may be made, in their order.
abbrev pub plan : Flags → String → List Call
plan flags env =
    for_watcher new_cert_watcher (watched flags.webhook_cert)
    ++ (for_watcher new_cert_watcher (watched flags.metrics_cert)
        ++ (new_manager (manager_options flags)
            ∷ setup_controller
            ∷ add_api_server flags.api_addr
            ∷ (webhook_calls env
                ++ (for_watcher add_cert_watcher (watched flags.metrics_cert)
                    ++ (for_watcher add_cert_watcher (watched flags.webhook_cert)
                        ++ (add_healthz_check ∷ add_readyz_check ∷ start_manager ∷ []))))))

module _ (fails : Call → Bool) where
  abbrev pub Succeed : List Call → Type 0
  Succeed = All (λ c. fails c ≡ false)

  -- Makes the calls of a list up to the first that fails.
  unfoldable pub run : List Call → Boot (Unit {0})
  run [] = ([], some tt)
  run (c ∷ rest) =
      let later = run rest in if fails c then (c ∷ [], none) else (c ∷ later.0, later.1)

  attempt-run :
      (c : Call) (f : Boot (Unit {0})) (rest : List Call)
      → f ≡ run rest
      → (call fails c >>= λ failed. exit_if failed >>= λ _. f) ≡ run (c ∷ rest)
  unfolding run
  attempt-run c f rest same = elim (Bool-cases (fails c)) [
    | inl broken ↦ rw broken refl
    | inr fine ↦ rw fine (ap (λ (m : Boot (Unit {0})). (c ∷ m.0, m.1)) same)
  ]

  last-run : (c : Call) → (call fails c >>= exit_if) ≡ run (c ∷ [])
  unfolding run
  last-run c = elim (Bool-cases (fails c)) [ inl broken ↦ rw broken refl | inr fine ↦ rw fine refl ]

  -- The same inside a part of `main` that has a value, and in one that has none.
  valued-run :
      {A : Type 0} (c : Call) (a : A) (f : A → Boot (Unit {0})) (rest : List Call)
      → f a ≡ run rest
      → ((call fails c >>= λ failed. exit_if failed >>= λ _. pure a) >>= f) ≡ run (c ∷ rest)
  unfolding run
  valued-run c a f rest same = elim (Bool-cases (fails c)) [
    | inl broken ↦ rw broken refl
    | inr fine ↦ rw fine (ap (λ (m : Boot (Unit {0})). (c ∷ m.0, m.1)) same)
  ]

  part-run :
      (c : Call) (f : Boot (Unit {0})) (rest : List Call)
      → f ≡ run rest
      → ((call fails c >>= exit_if) >>= λ _. f) ≡ run (c ∷ rest)
  unfolding run
  part-run c f rest same = elim (Bool-cases (fails c)) [
    | inl broken ↦ rw broken refl
    | inr fine ↦ rw fine (ap (λ (m : Boot (Unit {0})). (c ∷ m.0, m.1)) same)
  ]

  webhook_watcher-run :
      (flags : Flags) (f : Option CertFiles → Boot (Unit {0})) (rest : List Call)
      → f (watched flags.webhook_cert) ≡ run rest
      → (new_webhook_watcher fails flags >>= f)
        ≡ run (for_watcher new_cert_watcher (watched flags.webhook_cert) ++ rest)
  webhook_watcher-run flags f rest same = elim (Bool-cases (flags.webhook_cert.path == "")) [
    | inl unset ↦ rw unset (rw unset at same)
    | inr set ↦ rw set (
        valued-run (new_cert_watcher flags.webhook_cert) (some flags.webhook_cert) f rest
          (rw set at same))
  ]

  metrics_watcher-run :
      (flags : Flags) (f : Option CertFiles → Boot (Unit {0})) (rest : List Call)
      → f (watched flags.metrics_cert) ≡ run rest
      → (new_metrics_watcher fails flags >>= f)
        ≡ run (for_watcher new_cert_watcher (watched flags.metrics_cert) ++ rest)
  metrics_watcher-run flags f rest same = elim (Bool-cases (flags.metrics_cert.path == "")) [
    | inl unset ↦ rw unset (rw unset at same)
    | inr set ↦ rw set (
        valued-run (new_cert_watcher flags.metrics_cert) (some flags.metrics_cert) f rest
          (rw set at same))
  ]

  enable_webhooks-run :
      (env : String) (f : Boot (Unit {0})) (rest : List Call)
      → f ≡ run rest
      → (enable_webhooks_from fails env >>= λ _. f) ≡ run (webhook_calls env ++ rest)
  enable_webhooks-run env f rest same = elim (Bool-cases (env == "false")) [
    | inl off ↦ rw off same
    | inr on ↦ rw on (part-run setup_webhooks f rest same)
  ]

  add_metrics-run :
      (watcher : Option CertFiles) (f : Boot (Unit {0})) (rest : List Call)
      → f ≡ run rest
      → (add_metrics_watcher fails watcher >>= λ _. f)
        ≡ run (for_watcher add_cert_watcher watcher ++ rest)
  add_metrics-run none f rest same = same
  add_metrics-run (some files) f rest same = part-run (add_cert_watcher files) f rest same

  add_webhook-run :
      (watcher : Option CertFiles) (f : Boot (Unit {0})) (rest : List Call)
      → f ≡ run rest
      → (add_webhook_watcher fails watcher >>= λ _. f)
        ≡ run (for_watcher add_cert_watcher watcher ++ rest)
  add_webhook-run none f rest same = same
  add_webhook-run (some files) f rest same = part-run (add_cert_watcher files) f rest same

  -- `main` makes the calls of its plan up to the first that fails.
  pub main-run : (flags : Flags) (env : String) → main fails flags env ≡ run (plan flags env)
  unfolding main
  main-run flags env =
      let webhook = watched flags.webhook_cert in
      let metrics = watched flags.metrics_cert in
      webhook_watcher-run flags _ _ (
        metrics_watcher-run flags _ _ (
          attempt-run (new_manager (manager_options flags)) _ _ (
            attempt-run setup_controller _ _ (
              attempt-run (add_api_server flags.api_addr) _ _ (
                enable_webhooks-run env _ _ (
                  add_metrics-run metrics _ _ (
                    add_webhook-run webhook _ _ (
                      attempt-run add_healthz_check _ _
                        (attempt-run add_readyz_check _ _ (last-run start_manager))))))))))
