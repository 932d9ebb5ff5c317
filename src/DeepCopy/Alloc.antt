-- ===== src/DeepCopy/Alloc.antt =====
-- Go's references, and the code that controller-gen writes for each kind of field of
-- api/v1alpha1/zz_generated.deepcopy.go. An object in memory has an address; a copying function is
-- given the next free address and returns the next one after its allocations.
use pd_manager.Common.{ℕ, suc, String, Option, none, some, List, [], ◌∷◌, GoMap, IsMap}
use pd_manager.DeepCopy.Entries.{insert_all, insert_all-IsMap}

-- What a pointer, a slice or a map refers to.
pub record Ref (A : Type 0) : Type 0 where
  pub address : ℕ
  pub target : A

-- `*A`, nil or not
abbrev pub Ptr : Type 0 → Type 0
Ptr A = Option (Ref A)

-- `[]A`, nil or not
abbrev pub Slice : Type 0 → Type 0
Slice A = Option (Ref (List A))

-- The entries of a `map[string]string`; Go's maps have no key twice.
pub record StringMap : Type 0 where
  pub entries : GoMap String
  pub distinct : IsMap entries

-- `map[string]string`, nil or not
abbrev pub MapRef : Type 0
MapRef = Option (Ref StringMap)

abbrev pub Alloc : Type 0 → Type 0
Alloc A = ℕ → A × ℕ

abbrev pub pure : {A : Type 0} → A → Alloc A
pure x next = (x, next)

infixl 5 ◌>>=◌
abbrev pub ◌>>=◌ : {A B : Type 0} → Alloc A → (A → Alloc B) → Alloc B
◌>>=◌ m f next = f (m next).0 (m next).1

-- `new(A)` or `make`, then the target is filled in.
abbrev copy_ref : {A : Type 0} → (A → Alloc A) → Ref A → Alloc (Ref A)
copy_ref copy ref next =
    let copied = copy ref.target (suc next) in
    (record { address = next; target = copied.0 }, copied.1)

-- `if in.F != nil { *out = new(A); ... }`: a nil field stays nil.
unfoldable pub copy_some : {A : Type 0} → (A → Alloc A) → Option (Ref A) → Alloc (Option (Ref A))
copy_some copy none = pure none
copy_some copy (some ref) = do copied ← copy_ref copy ref; pure (some copied)

-- `for i := range *in { (*in)[i].DeepCopyInto(&(*out)[i]) }`
unfoldable pub copy_each : {A : Type 0} → (A → Alloc A) → List A → Alloc (List A)
copy_each copy [] = pure []
copy_each copy (x ∷ xs) = do y ← copy x; ys ← copy_each copy xs; pure (y ∷ ys)

-- `for key, val := range *in { (*out)[key] = val }` into an empty map
abbrev pub copy_entries : StringMap → Alloc StringMap
copy_entries m =
    pure (record { entries = insert_all m.entries []; distinct = insert_all-IsMap m.entries [] tt })

-- A field of pointer type whose target has its own `DeepCopyInto`, and the `DeepCopy` of a type.
abbrev pub copy_ptr : {A : Type 0} → (A → Alloc A) → Ptr A → Alloc (Ptr A)
copy_ptr = copy_some

-- `**out = **in`
abbrev pub copy_flat_ptr : {A : Type 0} → Ptr A → Alloc (Ptr A)
copy_flat_ptr = copy_some pure

abbrev pub copy_slice : {A : Type 0} → (A → Alloc A) → Slice A → Alloc (Slice A)
copy_slice copy = copy_some (copy_each copy)

-- `copy(*out, *in)`
abbrev pub copy_flat_slice : {A : Type 0} → Slice A → Alloc (Slice A)
copy_flat_slice = copy_some pure

abbrev pub copy_map : MapRef → Alloc MapRef
copy_map = copy_some copy_entries
