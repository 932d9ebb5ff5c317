-- ===== src/Startup/Needed.antt =====
-- Which calls the flags and ENABLE_WEBHOOKS ask for.
use mathlib.Core.Path.{subst}
use pd_manager.Common.{
  ◌≡◌, ◌≢◌, ◌↔◌, ◌⊎◌, inl, inr, String, List, [], ◌∷◌, ◌++◌, Any, refl, sym, ap, ◌∙◌, arith, eq_iff,
}
use pd_manager.Startup.Defs.{
  CertFiles, Flags, manager_options, watched, Call, new_cert_watcher, new_manager, setup_controller,
  add_api_server, setup_webhooks, add_cert_watcher, add_healthz_check, add_readyz_check,
  start_manager,
}
use pd_manager.Startup.Plan.{for_watcher, webhook_calls, plan}

-- The files of a certificate whose directory is given: that of the webhook server or of the metrics
-- server.
abbrev pub IsWatched : Flags → CertFiles → Type 0
IsWatched flags files =
    ((files ≡ flags.webhook_cert) ⊎ (files ≡ flags.metrics_cert)) × (files.path ≢ "")

-- A watcher is made and added for each certificate whose directory is given, the webhooks are set up
-- unless ENABLE_WEBHOOKS is "false", and all else is always needed.
abbrev pub IsNeeded : Flags → (enable_webhooks : String) → Call → Type 0
IsNeeded flags env (new_cert_watcher files) = IsWatched flags files
IsNeeded flags env (new_manager options) = options ≡ manager_options flags
IsNeeded flags env setup_controller = Unit {0}
IsNeeded flags env (add_api_server addr) = addr ≡ flags.api_addr
IsNeeded flags env setup_webhooks = env ≢ "false"
IsNeeded flags env (add_cert_watcher files) = IsWatched flags files
IsNeeded flags env add_healthz_check = Unit {0}
IsNeeded flags env add_readyz_check = Unit {0}
IsNeeded flags env start_manager = Unit {0}

abbrev Has : Call → List Call → Type 0
Has c = Any (λ x. x ≡ c)

module _ (c : Call) where
  Has-left : (xs ys : List Call) → Has c xs → Has c (xs ++ ys)
  Has-left [] ys h = elim h [ ]
  Has-left (x ∷ xs) ys (inl h) = inl h
  Has-left (x ∷ xs) ys (inr h) = inr (Has-left xs ys h)

  Has-right : (xs ys : List Call) → Has c ys → Has c (xs ++ ys)
  Has-right [] ys h = h
  Has-right (x ∷ xs) ys h = inr (Has-right xs ys h)

  Has-append : (xs ys : List Call) → Has c (xs ++ ys) → Has c xs ⊎ Has c ys
  Has-append [] ys h = inr h
  Has-append (x ∷ xs) ys (inl h) = inl (inl h)
  Has-append (x ∷ xs) ys (inr h) = elim (Has-append xs ys h) [
    | inl left ↦ inl (inr left)
    | inr right ↦ inr right
  ]

for_watcher-Has :
    (on : CertFiles → Call) (files : CertFiles) (c : Call)
    → Has c (for_watcher on (watched files)) ↔ ((files.path ≢ "") × (on files ≡ c))
for_watcher-Has on files c = ground (arith, eq_iff files.path "")

webhook_calls-Has :
    (env : String) (c : Call) → Has c (webhook_calls env) ↔ ((env ≢ "false") × (setup_webhooks ≡ c))
webhook_calls-Has env c = ground (arith, eq_iff env "false")

module _ (flags : Flags) (env : String) where
  -- The plan after the webhooks are set up.
  abbrev from_adding : List Call
  from_adding =
      for_watcher add_cert_watcher (watched flags.metrics_cert)
      ++ (for_watcher add_cert_watcher (watched flags.webhook_cert)
          ++ (add_healthz_check ∷ add_readyz_check ∷ start_manager ∷ []))

  plan_sound : (c : Call) → Has c (plan flags env) → IsNeeded flags env c
  plan_sound c h =
      elim (Has-append c (for_watcher new_cert_watcher (watched flags.webhook_cert)) _ h) [
        | inl made ↦
            let (given, same) = (for_watcher-Has new_cert_watcher flags.webhook_cert c).0 made in
            subst (IsNeeded flags env) same (inl refl, given)
        | inr h1 ↦
            elim (Has-append c (for_watcher new_cert_watcher (watched flags.metrics_cert)) _ h1) [
              | inl made ↦
                  let (given, same) =
                    (for_watcher-Has new_cert_watcher flags.metrics_cert c).0 made in
                  subst (IsNeeded flags env) same (inr refl, given)
              | inr (inl same) ↦ subst (IsNeeded flags env) same refl
              | inr (inr (inl same)) ↦ subst (IsNeeded flags env) same tt
              | inr (inr (inr (inl same))) ↦ subst (IsNeeded flags env) same refl
              | inr (inr (inr (inr h2))) ↦ elim (Has-append c (webhook_calls env) _ h2) [
                | inl made ↦
                    let (enabled, same) = (webhook_calls-Has env c).0 made in
                    subst (IsNeeded flags env) same enabled
                | inr h3 ↦ adding_sound c h3
              ]
            ]
      ]
    where
      adding_sound : (c : Call) → Has c from_adding → IsNeeded flags env c
      adding_sound c h =
          elim (Has-append c (for_watcher add_cert_watcher (watched flags.metrics_cert)) _ h) [
            | inl made ↦
                let (given, same) =
                  (for_watcher-Has add_cert_watcher flags.metrics_cert c).0 made in
                subst (IsNeeded flags env) same (inr refl, given)
            | inr h1 ↦
                elim (Has-append c (for_watcher add_cert_watcher (watched flags.webhook_cert)) _
                  h1) [
                    | inl made ↦
                        let (given, same) =
                          (for_watcher-Has add_cert_watcher flags.webhook_cert c).0 made in
                        subst (IsNeeded flags env) same (inl refl, given)
                    | inr (inl same) ↦ subst (IsNeeded flags env) same tt
                    | inr (inr (inl same)) ↦ subst (IsNeeded flags env) same tt
                    | inr (inr (inr (inl same))) ↦ subst (IsNeeded flags env) same tt
                    | inr (inr (inr (inr none_left))) ↦ absurd none_left
                  ]
          ]

  later_Has :
      (c : Call)
      → Has c (
          new_manager (manager_options flags)
          ∷ setup_controller
          ∷ add_api_server flags.api_addr
          ∷ (webhook_calls env ++ from_adding))
      → Has c (plan flags env)
  later_Has c h =
      Has-right c (for_watcher new_cert_watcher (watched flags.webhook_cert)) _
        (Has-right c (for_watcher new_cert_watcher (watched flags.metrics_cert)) _ h)

  adding_Has : (c : Call) → Has c from_adding → Has c (plan flags env)
  adding_Has c h = later_Has c (inr (inr (inr (Has-right c (webhook_calls env) _ h))))

  last_Has :
      (c : Call)
      → Has c (add_healthz_check ∷ add_readyz_check ∷ start_manager ∷ [])
      → Has c (plan flags env)
  last_Has c h = adding_Has c (
      Has-right c (for_watcher add_cert_watcher (watched flags.metrics_cert)) _
        (Has-right c (for_watcher add_cert_watcher (watched flags.webhook_cert)) _ h))

  plan_complete : (c : Call) → IsNeeded flags env c → Has c (plan flags env)
  plan_complete (new_cert_watcher files) (inl same, given) =
      Has-left _ (for_watcher new_cert_watcher (watched flags.webhook_cert)) _ (
        (for_watcher-Has new_cert_watcher flags.webhook_cert _).1
          (λ e. given (ap (λ f. f.path) same ∙ e), ap new_cert_watcher (sym same)))
  plan_complete (new_cert_watcher files) (inr same, given) =
      Has-right _ (for_watcher new_cert_watcher (watched flags.webhook_cert)) _ (
        Has-left _ (for_watcher new_cert_watcher (watched flags.metrics_cert)) _ (
          (for_watcher-Has new_cert_watcher flags.metrics_cert _).1
            (λ e. given (ap (λ f. f.path) same ∙ e), ap new_cert_watcher (sym same))))
  plan_complete (new_manager options) same = later_Has _ (inl (ap new_manager (sym same)))
  plan_complete setup_controller needed = later_Has _ (inr (inl refl))
  plan_complete (add_api_server addr) same =
      later_Has _ (inr (inr (inl (ap add_api_server (sym same)))))
  plan_complete setup_webhooks enabled = later_Has _ (
      inr (
        inr (inr (Has-left _ (webhook_calls env) _ ((webhook_calls-Has env _).1 (enabled, refl))))))
  plan_complete (add_cert_watcher files) (inl same, given) = adding_Has _ (
      Has-right _ (for_watcher add_cert_watcher (watched flags.metrics_cert)) _ (
        Has-left _ (for_watcher add_cert_watcher (watched flags.webhook_cert)) _ (
          (for_watcher-Has add_cert_watcher flags.webhook_cert _).1
            (λ e. given (ap (λ f. f.path) same ∙ e), ap add_cert_watcher (sym same)))))
  plan_complete (add_cert_watcher files) (inr same, given) = adding_Has _ (
      Has-left _ (for_watcher add_cert_watcher (watched flags.metrics_cert)) _ (
        (for_watcher-Has add_cert_watcher flags.metrics_cert _).1
          (λ e. given (ap (λ f. f.path) same ∙ e), ap add_cert_watcher (sym same))))
  plan_complete add_healthz_check needed = last_Has _ (inl refl)
  plan_complete add_readyz_check needed = last_Has _ (inr (inl refl))
  plan_complete start_manager needed = last_Has _ (inr (inr (inl refl)))

  pub plan-Has_iff : (c : Call) → Has c (plan flags env) ↔ IsNeeded flags env c
  plan-Has_iff c = (plan_sound c, plan_complete c)
