-- ===== src/Startup/Started.antt =====
-- What has been done when the manager is started.
use mathlib.Core.Path.{subst}
use pd_manager.Common.{
  ◌≡◌, ◌≢◌, ◌↔◌, ◌⊎◌, inl, inr, String, Bool, false, Option, none, some, List, [], ◌∷◌, ◌++◌, All,
  Any, refl, sym, ap, ◌∙◌, ◌==◌, Bool-cases,
}
use pd_manager.Startup.Defs.{
  CertFiles, Flags, manager_options, watched, Call, new_manager, add_api_server, new_cert_watcher,
  add_cert_watcher, start_manager,
}
use pd_manager.Startup.Main.{Boot, main}
use pd_manager.Startup.Plan.{for_watcher, webhook_calls, plan, run, main-run}
use pd_manager.Startup.Needed.{IsNeeded, plan-Has_iff}

-- The call `last` stands at the end of a list and nowhere else.
abbrev IsLast : Call → List Call → Type 0
IsLast last [] = ⊥
IsLast last (c ∷ rest) = ((c ≡ last) × (rest ≡ [])) ⊎ ((c ≢ last) × IsLast last rest)

IsLast-append :
    (last : Call) (xs ys : List Call)
    → All (λ c. c ≢ last) xs
    → IsLast last ys
    → IsLast last (xs ++ ys)
IsLast-append last [] ys differ h = h
IsLast-append last (x ∷ xs) ys differ h = inr (differ.0, IsLast-append last xs ys differ.1 h)

for_watcher-ne :
    (on : CertFiles → Call) (files : Option CertFiles)
    → ((f : CertFiles) → on f ≢ start_manager)
    → All (λ c. c ≢ start_manager) (for_watcher on files)
for_watcher-ne on none differ = tt
for_watcher-ne on (some f) differ = (differ f, tt)

webhook_calls-ne : (env : String) → All (λ c. c ≢ start_manager) (webhook_calls env)
webhook_calls-ne env = elim (Bool-cases (env == "false")) [
  | inl off ↦ rw off tt
  | inr on ↦ rw on (λ h. cc, tt)
]

manager-ne : (flags : Flags) → new_manager (manager_options flags) ≢ start_manager
manager-ne flags h = cc

api_server-ne : (addr : String) → add_api_server addr ≢ start_manager
api_server-ne addr h = cc

plan-IsLast : (flags : Flags) (env : String) → IsLast start_manager (plan flags env)
plan-IsLast flags env =
    let webhook = watched flags.webhook_cert in
    let metrics = watched flags.metrics_cert in
    let made = for_watcher-ne new_cert_watcher webhook (λ f h. cc) in
    let made' = for_watcher-ne new_cert_watcher metrics (λ f h. cc) in
    let added = for_watcher-ne add_cert_watcher metrics (λ f h. cc) in
    let added' = for_watcher-ne add_cert_watcher webhook (λ f h. cc) in
    IsLast-append start_manager _ _ made (
      IsLast-append start_manager _ _ made' (
        inr (
          manager-ne flags,
          inr (
            (λ h. cc),
            inr (
              api_server-ne flags.api_addr,
              IsLast-append start_manager _ _ (webhook_calls-ne env) (
                  IsLast-append start_manager _ _ added (
                    IsLast-append start_manager _ _ added'
                      (inr ((λ h. cc), inr ((λ h. cc), inl (refl, refl)))))),
            ),
          ),
        )))

module _ (fails : Call → Bool) where
  -- A run in which the last call is made: it makes all of them, those before the last succeed, and
  -- the last decides how it ends.
  record RunsTo (last : Call) (xs : List Call) (end : Boot (Unit {0})) : Type 0 where
    made : end.0 ≡ xs
    succeeded : (c : Call) → Any (λ x. x ≡ c) xs → c ≢ last → fails c ≡ false
    status : (end.1 ≡ some tt) ↔ (fails last ≡ false)

  run-RunsTo :
      (last : Call) (xs : List Call)
      → IsLast last xs
      → Any (λ x. x ≡ last) (run fails xs).0
      → RunsTo last xs (run fails xs)
  unfolding run
  run-RunsTo last [] ends reached = elim ends [ ]
  run-RunsTo last (c ∷ rest) (inl (same, alone)) reached = elim (Bool-cases (fails c)) [
    | inl broken ↦
        rw (alone, broken)
          (record {
            made = refl;
            succeeded = λ x there differ. elim there [
              | inl e ↦ absurd (differ (sym e ∙ same))
              | inr nothing ↦ absurd nothing
            ];
            status = (λ h. cc, λ h. cc);
          })
    | inr fine ↦
        rw (alone, fine)
          (record {
            made = refl;
            succeeded = λ x there differ. elim there [
              | inl e ↦ absurd (differ (sym e ∙ same))
              | inr nothing ↦ absurd nothing
            ];
            status = (λ _. ap fails (sym same) ∙ fine, λ _. refl);
          })
  ]
  run-RunsTo last (c ∷ rest) (inr (differs, ends)) reached = elim (Bool-cases (fails c)) [
    | inl broken ↦ absurd (not_yet (rw broken at reached))
    | inr fine ↦
        let later = run-RunsTo last rest ends (on_from (rw fine at reached)) in
        rw fine (record {
          made = ap (λ xs. c ∷ xs) later.made;
          succeeded = λ x there differ. elim there [
            | inl e ↦ ap fails (sym e) ∙ fine
            | inr further ↦ later.succeeded x further differ
          ];
          status = later.status;
        })
  ]
    where
      not_yet : Any (λ x. x ≡ last) (c ∷ []) → ⊥
      not_yet h = elim h [ inl same ↦ differs same | inr nothing ↦ nothing ]

      on_from :
          Any (λ x. x ≡ last) (c ∷ (run fails rest).0) → Any (λ x. x ≡ last) (run fails rest).0
      on_from h = elim h [ inl same ↦ absurd (differs same) | inr there ↦ there ]

-- The start-up has come to the start of the manager: the calls made are exactly those that are
-- needed, all the others have succeeded, and the process exits with status 0 exactly if the manager's
-- own run succeeds.
pub record IsStarted (fails : Call → Bool) (flags : Flags) (env : String) (end : Boot (Unit {0}))
    : Type 0 where
  pub made : (c : Call) → Any (λ x. x ≡ c) end.0 ↔ IsNeeded flags env c
  pub succeeded : (c : Call) → IsNeeded flags env c → c ≢ start_manager → fails c ≡ false
  pub status : (end.1 ≡ some tt) ↔ (fails start_manager ≡ false)

-- If the manager is started, then the calls that `main` has made are exactly those that its flags and
-- ENABLE_WEBHOOKS ask for: a certificate watcher is made and added for each certificate whose
-- directory is given, the webhooks are set up unless the variable is "false", and the manager, the
-- controller, the API server and the two checks always. Each of them but the start has succeeded, and
-- the process exits with status 0 exactly if the run of the manager succeeds too.
pub main-IsStarted :
    (fails : Call → Bool) (flags : Flags) (enable_webhooks : String)
    → Any (λ c. c ≡ start_manager) (main fails flags enable_webhooks).0
    → IsStarted fails flags enable_webhooks (main fails flags enable_webhooks)
main-IsStarted fails flags enable_webhooks reached =
    let same = main-run fails flags enable_webhooks in
    let ended =
      run-RunsTo fails start_manager (plan flags enable_webhooks)
        (plan-IsLast flags enable_webhooks)
        (subst (λ (m : Boot (Unit {0})). Any (λ c. c ≡ start_manager) m.0) same reached) in
    subst (IsStarted fails flags enable_webhooks) (sym same) (record {
      made = λ c.
          subst (λ xs. Any (λ x. x ≡ c) xs ↔ IsNeeded flags enable_webhooks c) (sym ended.made)
            (plan-Has_iff flags enable_webhooks c);
      succeeded = λ c needed. ended.succeeded c ((plan-Has_iff flags enable_webhooks c).1 needed);
      status = ended.status;
    })
