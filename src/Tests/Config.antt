-- ===== src/Tests/Config.antt =====
-- The merge of a profile with inline fields, on concrete services.
use pd_manager.Common.{
  ◌≡◌, ◌≢◌, ◌↔◌, Option, some, none, [], ◌∷◌, ok, err, Error, wrapped, not_found, refl,
}
use pd_manager.Config.{
  MergedConfig, resolve, load_profile, override_inline, apply_profile, profile_key,
  get_profile_context,
}
use pd_manager.Config.Merge.{IsMerge}
use pd_manager.Config.Precedence.{IsReferenced, resolve-eq-ok_iff, resolve-eq-err_iff}
use pd_manager.Api.{PdEngineProfile}
use pd_manager.Tests.Samples.{no_quote, get_profile, no_profile, profiled_service, profile}

-- The router has an image of its own; the workers take theirs from the profile.
abbrev merged : MergedConfig
merged = record {
  images = record { router = "router:v1"; prefill = "sglang:v2"; decode = "sglang:v2" };
  router_command = [];
  prefill_command = [];
  decode_command = [];
  router_args = "--pd" ∷ [];
  prefill_args = [];
  decode_args = [];
  engine_runtimes = none;
}

resolve_run : resolve no_quote get_profile profiled_service ≡ ok merged
unfolding resolve load_profile override_inline apply_profile
resolve_run = refl

resolve-eq-ok_iff_example : (resolve no_quote get_profile profiled_service ≡ ok merged) ↔ (
    (found : Option PdEngineProfile) × IsReferenced get_profile profiled_service found
    × IsMerge profiled_service.spec found merged)
resolve-eq-ok_iff_example = resolve-eq-ok_iff no_quote get_profile profiled_service merged

abbrev missing : Error
missing = wrapped "get profile sglang-h100" (not_found "no profile")

resolve-eq-err_iff_example : (resolve no_quote no_profile profiled_service ≡ err missing) ↔ (
    (profiled_service.spec.engine_profile_ref ≢ "")
    × ((cause : Error) × (no_profile (profile_key profiled_service) ≡ err cause)
        × (missing ≡ wrapped (get_profile_context no_quote profiled_service) cause)))
resolve-eq-err_iff_example = resolve-eq-err_iff no_quote no_profile profiled_service missing

referenced : IsReferenced get_profile profiled_service (some profile)
referenced = (cc, refl)
