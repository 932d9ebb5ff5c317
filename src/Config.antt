-- ===== src/Config.antt =====
-- internal/config/merger.go: the two-tier merge of a PDEngineProfile with the inline fields of a
-- PDInferenceService.
pub mod Roles
pub mod Merge
pub mod Precedence
use Prim.Native.String
use pd_manager.Common.{
  String, Option, none, some, List, [], Result, ok, wrap_error, ◌>>=◌, ◌==◌, is_filled,
  if◌then◌else◌,
}
use pd_manager.Api.{
  NamespacedName, RoleImages, RoleEngineRuntimes, RoleCommands, RoleArgs, PdEngineProfile,
  PdInferenceService, PdInferenceServiceSpec,
}

pub record MergedConfig : Type 0 where
  pub images : RoleImages
  pub router_command : List String
  pub prefill_command : List String
  pub decode_command : List String
  pub router_args : List String
  pub prefill_args : List String
  pub decode_args : List String
  pub engine_runtimes : Option RoleEngineRuntimes

-- `&MergedConfig{}`
abbrev pub empty_config : MergedConfig
empty_config = record {
  images = record { router = ""; prefill = ""; decode = "" };
  router_command = [];
  prefill_command = [];
  decode_command = [];
  router_args = [];
  prefill_args = [];
  decode_args = [];
  engine_runtimes = none;
}

abbrev apply_role_commands : Option RoleCommands → MergedConfig → MergedConfig
apply_role_commands none m = m
apply_role_commands (some rc) m = record m {
  router_command = rc.router;
  prefill_command = rc.prefill;
  decode_command = rc.decode;
}

abbrev apply_role_args : Option RoleArgs → MergedConfig → MergedConfig
apply_role_args none m = m
apply_role_args (some ra) m = record m {
  router_args = ra.router;
  prefill_args = ra.prefill;
  decode_args = ra.decode;
}

-- `(m *MergedConfig) applyProfile`
unfoldable pub apply_profile : MergedConfig → PdEngineProfile → MergedConfig
apply_profile m profile =
    let with_images : MergedConfig = record m { images = profile.spec.images } in
    let with_commands = apply_role_commands profile.spec.role_commands with_images in
    let with_args = apply_role_args profile.spec.role_args with_commands in
    record with_args { engine_runtimes = profile.spec.engine_runtimes }

-- `if inline != "" { base = inline }`
abbrev pub override_text : String → String → String
override_text inline base = if inline == "" then base else inline

-- `if len(inline) > 0 { base = inline }`
abbrev pub override_list : List String → List String → List String
override_list inline base = if is_filled inline then inline else base

-- Steps 2 to 4 of `Resolve`.
unfoldable pub override_inline : PdInferenceServiceSpec → MergedConfig → MergedConfig
override_inline spec merged = record {
  images = record {
    router = override_text spec.router.image merged.images.router;
    prefill = override_text spec.prefill.image merged.images.prefill;
    decode = override_text spec.decode.image merged.images.decode;
  };
  router_command = override_list spec.router.command merged.router_command;
  prefill_command = override_list spec.prefill.command merged.prefill_command;
  decode_command = override_list spec.decode.command merged.decode_command;
  router_args = override_list spec.router.args merged.router_args;
  prefill_args = override_list spec.prefill.args merged.prefill_args;
  decode_args = override_list spec.decode.args merged.decode_args;
  engine_runtimes = merged.engine_runtimes;
}

-- The key under which `Resolve` reads the profile.
abbrev pub profile_key : PdInferenceService → NamespacedName
profile_key pdis = record {
  namespace = pdis.metadata.namespace;
  name = pdis.spec.engine_profile_ref;
}

-- The context of the error: `fmt.Errorf("get profile %q: %w", ref, err)`.
abbrev pub get_profile_context : (String → String) → PdInferenceService → String
get_profile_context quote pdis = String.◌++◌ "get profile " (quote pdis.spec.engine_profile_ref)

module _ (quote : String → String) (get : NamespacedName → Result PdEngineProfile) where
  -- Step 1 of `Resolve`.
  unfoldable pub load_profile : PdInferenceService → Result MergedConfig
  load_profile pdis = if pdis.spec.engine_profile_ref == "" then ok empty_config else (do
    profile ← wrap_error (get_profile_context quote pdis) (get (profile_key pdis))
    ok (apply_profile empty_config profile))

  -- `(m *Merger) Resolve`, on the client's read `get`
  unfoldable pub resolve : PdInferenceService → Result MergedConfig
  resolve pdis = do merged ← load_profile pdis; ok (override_inline pdis.spec merged)
