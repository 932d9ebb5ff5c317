-- ===== src/Webhook/Mounts.antt =====
-- Which volume mounts `validateVolumeMounts` reports.
use Prim.Native.String
use mathlib.Core.Path.{subst}
use pd_manager.Common.{
  ℕ, zero, suc, ◌+◌, ◌≡◌, ◌↔◌, ◌⊎◌, inl, inr, String, Bool, false, not, some, List, [], ◌∷◌, GoMap,
  Any, Any-append, Any-append_three, eq-nil_of_empty, get_elem?, refl, sym, ap, ◌∙◌, arith,
  Bool-cases,
}
use pd_manager.Api.{
  PdInferenceServiceSpec, VolumeMountSpec, Role, router, prefill, decode, role_name, inline_mounts,
}
use pd_manager.Webhook.Field.{FieldError, invalid, child, index, ErrorList}
use pd_manager.Webhook.Create.{
  when, add_vol_names, is_defined, check_mounts, validate_volume_mounts,
}
use pd_manager.Webhook.Defined.{IsDefined, MountsDefined, is_defined_iff, IsDefined-cases}

module _ (quote : String → String) where
  -- The error about the mount at index `i` of a role.
  abbrev pub mount_error : String → ℕ → VolumeMountSpec → FieldError
  mount_error role i m =
      invalid (child "spec" ∷ child role ∷ child "volumeMounts" ∷ index i ∷ child "name" ∷ [])
        m.name (String.◌++◌ "volume " (String.◌++◌ (quote m.name) " not defined in spec.volumes"))

  -- An undefined mount of the list, whose first element has index `i`.
  abbrev Undefined : GoMap Bool → String → ℕ → List VolumeMountSpec → FieldError → Type 0
  Undefined names role i mounts e =
      (j : ℕ) × (m : VolumeMountSpec) × (get_elem? mounts j ≡ some m)
      × (is_defined names m.name ≡ false)
      × (e ≡ mount_error role (j + i) m)

  Undefined-shift :
      (names : GoMap Bool) (role : String) (i : ℕ) (m : VolumeMountSpec)
      (mounts : List VolumeMountSpec) (e : FieldError)
      → Undefined names role (suc i) mounts e
      → Undefined names role i (m ∷ mounts) e
  Undefined-shift names role i m mounts e (j, n, at, undefined, same) =
      (suc j, n, at, undefined, same ∙ ap (λ k. mount_error role k n) (omega arith))

  check_mounts_sound :
      (names : GoMap Bool) (role : String) (i : ℕ) (mounts : List VolumeMountSpec) (e : FieldError)
      → Any (λ x. x ≡ e) (check_mounts quote names role i mounts)
      → Undefined names role i mounts e
  unfolding check_mounts
  check_mounts_sound names role i [] e h = absurd h
  check_mounts_sound names role i (m ∷ mounts) e h =
      let rest = check_mounts_sound names role (suc i) mounts e in
      let shift = Undefined-shift names role i m mounts e in
      let split =
        (Any-append (λ x. x ≡ e) (when (not (is_defined names m.name)) (mount_error role i m))
            (check_mounts quote names role (suc i) mounts)).0
          h in
      elim split [
        | inl here ↦ elim (Bool-cases (is_defined names m.name)) [
          | inl defined ↦ absurd (rw defined at here)
          | inr undefined ↦ (zero, m, refl, undefined, ground arith)
        ]
        | inr there ↦ shift (rest there)
      ]

  check_mounts_complete :
      (names : GoMap Bool) (role : String) (i j : ℕ) (mounts : List VolumeMountSpec)
      (m : VolumeMountSpec)
      → get_elem? mounts j ≡ some m
      → is_defined names m.name ≡ false
      → Any (λ x. x ≡ mount_error role (j + i) m) (check_mounts quote names role i mounts)
  unfolding check_mounts
  check_mounts_complete names role i j [] m at undefined = cc
  check_mounts_complete names role i zero (n ∷ mounts) m at undefined =
      let same : n ≡ m = cc in
      let missing : is_defined names n.name ≡ false = rw same undefined in
      rw missing (inl (ap (mount_error role i) same ∙ ap (λ k. mount_error role k m) (omega arith)))
  check_mounts_complete names role i (suc j) (n ∷ mounts) m at undefined =
      let moved : j + suc i ≡ suc j + i = omega arith in
      let rest = check_mounts_complete names role (suc i) j mounts m at undefined in
      (Any-append _ (when (not (is_defined names n.name)) (mount_error role i n)) _).1 (
        inr (
          subst
            (λ k.
              Any (λ x. x ≡ mount_error role k m) (check_mounts quote names role (suc i) mounts))
            moved rest))

  -- A mount of some role, at its index, whose volume is not in `spec.volumes`.
  abbrev pub UndefinedMount : PdInferenceServiceSpec → FieldError → Type 0
  UndefinedMount spec e =
      (r : Role) × (i : ℕ) × (m : VolumeMountSpec) × (get_elem? (inline_mounts spec r) i ≡ some m)
      × (¬ IsDefined spec.volumes m.name)
      × (e ≡ mount_error (role_name r) i m)

  -- What `validateVolumeMounts` reports of one role.
  abbrev role_errors : PdInferenceServiceSpec → Role → ErrorList
  role_errors spec r =
      check_mounts quote (add_vol_names spec.volumes []) (role_name r) 0 (inline_mounts spec r)

  role_errors_sound :
      (spec : PdInferenceServiceSpec) (r : Role) (e : FieldError)
      → Any (λ x. x ≡ e) (role_errors spec r)
      → UndefinedMount spec e
  role_errors_sound spec r e h =
      let (i, m, at, undefined, same) =
        check_mounts_sound _ (role_name r) 0 (inline_mounts spec r) e h in
      let start : i + 0 ≡ i = omega arith in
      (
        r,
        i,
        m,
        at,
        ground (arith, is_defined_iff spec.volumes m.name),
        same ∙ ap (λ k. mount_error (role_name r) k m) start,
      )

  role_errors_complete :
      (spec : PdInferenceServiceSpec) (r : Role) (i : ℕ) (m : VolumeMountSpec)
      → get_elem? (inline_mounts spec r) i ≡ some m
      → ¬ IsDefined spec.volumes m.name
      → Any (λ x. x ≡ mount_error (role_name r) i m) (role_errors spec r)
  role_errors_complete spec r i m at undefined =
      let missing : is_defined (add_vol_names spec.volumes []) m.name ≡ false =
        ground (arith, is_defined_iff spec.volumes m.name) in
      let start : i + 0 ≡ i = omega arith in
      subst (λ k. Any (λ x. x ≡ mount_error (role_name r) k m) (role_errors spec r)) start
        (check_mounts_complete _ (role_name r) 0 i (inline_mounts spec r) m at missing)

  Any-validate_volume_mounts :
      (P : FieldError → Type 0) (spec : PdInferenceServiceSpec)
      → Any P (validate_volume_mounts quote spec) ↔ (
          Any P (role_errors spec router)
          ⊎ (Any P (role_errors spec prefill) ⊎ Any P (role_errors spec decode)))
  unfolding validate_volume_mounts
  Any-validate_volume_mounts P spec = Any-append_three P _ _ _

  validate_volume_mounts_sound :
      (spec : PdInferenceServiceSpec) (e : FieldError)
      → Any (λ x. x ≡ e) (validate_volume_mounts quote spec)
      → UndefinedMount spec e
  validate_volume_mounts_sound spec e h =
      elim ((Any-validate_volume_mounts (λ x. x ≡ e) spec).0 h) [
        | inl at_router ↦ role_errors_sound spec router e at_router
        | inr (inl at_prefill) ↦ role_errors_sound spec prefill e at_prefill
        | inr (inr at_decode) ↦ role_errors_sound spec decode e at_decode
      ]

  role_errors_reported :
      (P : FieldError → Type 0) (spec : PdInferenceServiceSpec) (r : Role)
      → Any P (role_errors spec r)
      → Any P (validate_volume_mounts quote spec)
  role_errors_reported P spec router h = (Any-validate_volume_mounts P spec).1 (inl h)
  role_errors_reported P spec prefill h = (Any-validate_volume_mounts P spec).1 (inr (inl h))
  role_errors_reported P spec decode h = (Any-validate_volume_mounts P spec).1 (inr (inr h))

-- `validateVolumeMounts` reports an error exactly when that is the error about a mount, of some
-- role and at its index in that role's list, whose name is that of no volume in `spec.volumes`.
pub validate_volume_mounts-reports_iff :
    (quote : String → String) (spec : PdInferenceServiceSpec) (e : FieldError)
    → Any (λ x. x ≡ e) (validate_volume_mounts quote spec) ↔ UndefinedMount quote spec e
validate_volume_mounts-reports_iff quote spec e = (
  validate_volume_mounts_sound quote spec e,
  λ (r, i, m, at, undefined, same).
      role_errors_reported quote (λ x. x ≡ e) spec r
        (subst (λ k. Any (λ x. x ≡ k) (role_errors quote spec r)) (sym same)
          (role_errors_complete quote spec r i m at undefined)),
)

module _ (quote : String → String) (spec : PdInferenceServiceSpec) where
  pub validate_volume_mounts-eq-nil_iff :
      (validate_volume_mounts quote spec ≡ []) ↔ MountsDefined spec
  validate_volume_mounts-eq-nil_iff = (
    λ none_found r i m at. elim (IsDefined-cases spec m.name) [
      | inl defined ↦ defined
      | inr undefined ↦ absurd (
          subst (Any (λ x. x ≡ mount_error quote (role_name r) i m)) none_found
            ((validate_volume_mounts-reports_iff quote spec _).1 (r, i, m, at, undefined, refl)))
    ],
    λ all_defined. eq-nil_of_empty (validate_volume_mounts quote spec) (λ e h.
        let (r, i, m, at, undefined, _) = validate_volume_mounts_sound quote spec e h in
        undefined (all_defined r i m at)),
  )
