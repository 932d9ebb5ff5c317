-- ===== src/Config/Merge.antt =====
-- What the merge of a profile with inline fields is, role by role and without the code of `Resolve`,
-- and that the code's steps build it.
use pd_manager.Common.{
  ◌≡◌, ◌≢◌, inl, inr, String, Option, none, some, List, [], ◌∷◌, refl, arith, eq_iff, String-cases,
}
use pd_manager.Api.{
  PdEngineProfile, PdInferenceServiceSpec, Role, router, prefill, decode, inline_image,
  inline_command, inline_args,
}
use pd_manager.Config.{
  MergedConfig, empty_config, apply_profile, override_text, override_list, override_inline,
}
use pd_manager.Config.Roles.{
  default_image, default_command, default_args, default_runtimes, merged_image, merged_command,
  merged_args,
}

-- A field set inline is taken as it is, and one left out falls back to the default.
abbrev pub Falls {ℓ} : {A : Type ℓ} → A → A → A → A → Type ℓ
Falls unset inline base result =
    (inline ≢ unset → result ≡ inline) × (inline ≡ unset → result ≡ base)

pub record IsMerge (spec : PdInferenceServiceSpec) (profile : Option PdEngineProfile)
    (cfg : MergedConfig) : Type 0 where
  pub image :
      (r : Role) → Falls "" (inline_image spec r) (default_image profile r) (merged_image cfg r)
  pub command :
      (r : Role)
      → Falls [] (inline_command spec r) (default_command profile r) (merged_command cfg r)
  pub args : (r : Role) → Falls [] (inline_args spec r) (default_args profile r) (merged_args cfg r)
  pub runtimes : cfg.engine_runtimes ≡ default_runtimes profile

override_text-Falls : (inline base : String) → Falls "" inline base (override_text inline base)
override_text-Falls inline base =
    (ground (arith, eq_iff inline ""), ground (arith, eq_iff inline ""))

override_list-Falls : (inline base : List String) → Falls [] inline base (override_list inline base)
override_list-Falls [] base = (λ h. absurd (h refl), λ _. refl)
override_list-Falls (x ∷ inline) base = (λ _. refl, λ h. cc)

-- The configuration before the inline fields.
abbrev pub base_config : Option PdEngineProfile → MergedConfig
base_config none = empty_config
base_config (some profile) = apply_profile empty_config profile

module _ (spec : PdInferenceServiceSpec) (m : MergedConfig) where
  override_image :
      (r : Role)
      → merged_image (override_inline spec m) r
        ≡ override_text (inline_image spec r) (merged_image m r)
  unfolding override_inline
  override_image router = refl
  override_image _ = refl

  override_command :
      (r : Role)
      → merged_command (override_inline spec m) r
        ≡ override_list (inline_command spec r) (merged_command m r)
  unfolding override_inline
  override_command router = refl
  override_command _ = refl

  override_args :
      (r : Role)
      → merged_args (override_inline spec m) r
        ≡ override_list (inline_args spec r) (merged_args m r)
  unfolding override_inline
  override_args router = refl
  override_args _ = refl

module _ (profile : Option PdEngineProfile) where
  base_image : (r : Role) → merged_image (base_config profile) r ≡ default_image profile r
  unfolding apply_profile
  base_image r = ground arith

  base_command : (r : Role) → merged_command (base_config profile) r ≡ default_command profile r
  unfolding apply_profile
  base_command r = ground arith

  base_args : (r : Role) → merged_args (base_config profile) r ≡ default_args profile r
  unfolding apply_profile
  base_args r = ground arith

  base_runtimes : (base_config profile).engine_runtimes ≡ default_runtimes profile
  unfolding apply_profile
  base_runtimes = ground arith

  pub override_inline-IsMerge :
      (spec : PdInferenceServiceSpec)
      → IsMerge spec profile (override_inline spec (base_config profile))
  unfolding override_inline
  override_inline-IsMerge spec = record {
    image = λ r. rw (override_image, base_image) (override_text-Falls _ _);
    command = λ r. rw (override_command, base_command) (override_list-Falls _ _);
    args = λ r. rw (override_args, base_args) (override_list-Falls _ _);
    runtimes = base_runtimes;
  }

Falls-text_unique :
    (inline base x y : String) → Falls "" inline base x → Falls "" inline base y → x ≡ y
Falls-text_unique inline base x y hx hy = elim (String-cases inline "") [
  | inl (same, _) ↦ cc (hx.1 same, hy.1 same)
  | inr (other, _) ↦ cc (hx.0 other, hy.0 other)
]

Falls-list_unique :
    (inline base x y : List String) → Falls [] inline base x → Falls [] inline base y → x ≡ y
Falls-list_unique [] base x y hx hy = cc (hx.1 refl, hy.1 refl)
Falls-list_unique (i ∷ inline) base x y hx hy =
    let filled : (i ∷ inline) ≢ [] = λ h. cc in cc (hx.0 filled, hy.0 filled)

-- The description leaves no choice: at most one configuration is a merge.
pub IsMerge-unique :
    {spec : PdInferenceServiceSpec} {profile : Option PdEngineProfile} (c d : MergedConfig)
    → IsMerge spec profile c
    → IsMerge spec profile d
    → c ≡ d
IsMerge-unique {spec} {profile} c d hc hd = ground (
  arith,
  text_unique router,
  text_unique prefill,
  text_unique decode,
  command_unique router,
  command_unique prefill,
  command_unique decode,
  args_unique router,
  args_unique prefill,
  args_unique decode,
)
  where
    text_unique : (r : Role) → merged_image c r ≡ merged_image d r
    text_unique r = Falls-text_unique _ _ _ _ (hc.image r) (hd.image r)

    command_unique : (r : Role) → merged_command c r ≡ merged_command d r
    command_unique r = Falls-list_unique _ _ _ _ (hc.command r) (hd.command r)

    args_unique : (r : Role) → merged_args c r ≡ merged_args d r
    args_unique r = Falls-list_unique _ _ _ _ (hc.args r) (hd.args r)
