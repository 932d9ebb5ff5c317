-- ===== src/Translator/Sidecars.antt =====
-- Which engine runtimes a role is given.
use pd_manager.Common.{◌≡◌, List, [], ◌∷◌, map, refl}
use pd_manager.Api.{EngineRuntime, PdInferenceServiceSpec, Role, router, prefill, decode}
use pd_manager.Config.{MergedConfig}
use pd_manager.Config.Merge.{Falls}
use pd_manager.Translator.Runtimes.{
  convert_engine_runtime, convert_engine_runtimes, resolve_engine_runtimes,
}
use pd_manager.Translator.Build.{router_runtimes, prefill_runtimes, decode_runtimes}

-- The runtimes of the router are those of the profile; the runtimes of prefill and decode that are
-- set inline are taken alone, and those of the profile where none are.
abbrev pub RuntimesOf : PdInferenceServiceSpec → MergedConfig → Role → List EngineRuntime → Type 0
RuntimesOf spec cfg router chosen = chosen ≡ router_runtimes cfg.engine_runtimes
RuntimesOf spec cfg prefill chosen =
    Falls [] spec.prefill.engine_runtimes (prefill_runtimes cfg.engine_runtimes) chosen
RuntimesOf spec cfg decode chosen =
    Falls [] spec.decode.engine_runtimes (decode_runtimes cfg.engine_runtimes) chosen

module _ (Q : Type 0) where
  pub convert_engine_runtimes-map :
      (runtimes : List EngineRuntime)
      → convert_engine_runtimes Q runtimes ≡ map (convert_engine_runtime Q) runtimes
  unfolding convert_engine_runtimes
  convert_engine_runtimes-map [] = refl
  convert_engine_runtimes-map (rt ∷ runtimes) = refl

  pub resolve_engine_runtimes-Falls :
      (inline profile : List EngineRuntime)
      → (chosen : List EngineRuntime) × Falls [] inline profile chosen
        × (resolve_engine_runtimes Q inline profile ≡ map (convert_engine_runtime Q) chosen)
  unfolding resolve_engine_runtimes
  resolve_engine_runtimes-Falls (rt ∷ inline) profile =
      (rt ∷ inline, (λ _. refl, λ h. cc), convert_engine_runtimes-map (rt ∷ inline))
  resolve_engine_runtimes-Falls [] [] = ([], (λ h. absurd (h refl), λ _. refl), refl)
  resolve_engine_runtimes-Falls [] (rt ∷ profile) =
      (rt ∷ profile, (λ h. absurd (h refl), λ _. refl), convert_engine_runtimes-map (rt ∷ profile))
