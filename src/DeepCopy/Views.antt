-- ===== src/DeepCopy/Views.antt =====
-- What a copy of an object in memory has to be: the same value, in new memory.
use mathlib.Core.Path.{subst}
use pd_manager.Common.{
  ℕ, suc, ◌≡◌, String, Option, none, some, List, [], ◌∷◌, ◌++◌, GoMap, map, refl, sym, ap,
}
use pd_manager.DeepCopy.Entries.{insert_all_nil}
use pd_manager.DeepCopy.Alloc.{Ref, StringMap, Alloc, pure, copy_some, copy_each, copy_entries}

-- How an object in memory reads: its value, without addresses, and the addresses of what it refers
-- to, at any depth.
pub record View (A V : Type 0) : Type 0 where
  pub value : A → V
  pub refs : A → List ℕ

-- An object without references.
abbrev pub flat : {A : Type 0} → View A A
flat = record { value = λ x. x; refs = λ _. [] }

abbrev value_of : {A V : Type 0} → (A → V) → Option (Ref A) → Option V
value_of value none = none
value_of value (some ref) = some (value ref.target)

abbrev refs_of : {A : Type 0} → (A → List ℕ) → Option (Ref A) → List ℕ
refs_of refs none = []
refs_of refs (some ref) = ref.address ∷ refs ref.target

abbrev refs_each : {A : Type 0} → (A → List ℕ) → List A → List ℕ
refs_each refs [] = []
refs_each refs (x ∷ xs) = refs x ++ refs_each refs xs

-- A nil slice reads like an empty one, and a nil map like an empty map.
abbrev list_of : {V : Type 0} → Option (List V) → List V
list_of none = []
list_of (some xs) = xs

abbrev pub ptr : {A V : Type 0} → View A V → View (Option (Ref A)) (Option V)
ptr view = record { value = value_of view.value; refs = refs_of view.refs }

abbrev pub each : {A V : Type 0} → View A V → View (List A) (List V)
each view = record { value = map view.value; refs = refs_each view.refs }

abbrev pub slice : {A V : Type 0} → View A V → View (Option (Ref (List A))) (List V)
slice view = record {
  value = λ s. list_of (value_of (map view.value) s);
  refs = refs_of (refs_each view.refs);
}

abbrev pub flat_slice : {A : Type 0} → View (Option (Ref (List A))) (List A)
flat_slice = record { value = λ s. list_of (value_of (λ xs. xs) s); refs = refs_of (λ _. []) }

abbrev pub entries : View StringMap (GoMap String)
entries = record { value = λ m. m.entries; refs = λ _. [] }

abbrev pub string_map : View (Option (Ref StringMap)) (GoMap String)
string_map = record { value = λ m. list_of (value_of (λ t. t.entries) m); refs = refs_of (λ _. []) }

-- The addresses from `next` on, in order, up to `after`.
abbrev pub Fills : ℕ → ℕ → List ℕ → Type 0
Fills next after [] = next ≡ after
Fills next after (a ∷ rest) = (a ≡ next) × Fills (suc next) after rest

-- The copy reads as the original, and its references are what has been allocated for it.
pub record IsDeep {A V : Type 0} (view : View A V) (copy : A → Alloc A) : Type 0 where
  pub same : (x : A) (next : ℕ) → view.value (copy x next).0 ≡ view.value x
  pub fills : (x : A) (next : ℕ) → Fills next (copy x next).1 (view.refs (copy x next).0)

pub Fills-append :
    (next middle after : ℕ) (ks ms : List ℕ)
    → Fills next middle ks
    → Fills middle after ms
    → Fills next after (ks ++ ms)
Fills-append next middle after [] ms hs ht = subst (λ k. Fills k after ms) (sym hs) ht
Fills-append next middle after (k ∷ ks) ms hs ht =
    (hs.0, Fills-append (suc next) middle after ks ms hs.1 ht)

pub flat-IsDeep : {A : Type 0} → IsDeep (flat {A = A}) pure
flat-IsDeep = record { same = λ _ _. refl; fills = λ _ _. refl }

pub ptr-IsDeep :
    {A V : Type 0} {view : View A V} {copy : A → Alloc A}
    → IsDeep view copy
    → IsDeep (ptr view) (copy_some copy)
unfolding copy_some
ptr-IsDeep {A} {V} {view} {copy} deep = record { same = same; fills = fills }
  where
    same :
        (x : Option (Ref A)) (next : ℕ)
        → value_of view.value (copy_some copy x next).0 ≡ value_of view.value x
    same none next = refl
    same (some ref) next = ap some (deep.same ref.target (suc next))

    fills :
        (x : Option (Ref A)) (next : ℕ)
        → Fills next (copy_some copy x next).1 (refs_of view.refs (copy_some copy x next).0)
    fills none next = refl
    fills (some ref) next = (refl, deep.fills ref.target (suc next))

each-IsDeep :
    {A V : Type 0} {view : View A V} {copy : A → Alloc A}
    → IsDeep view copy
    → IsDeep (each view) (copy_each copy)
unfolding copy_each
each-IsDeep {A} {V} {view} {copy} deep = record { same = same; fills = fills }
  where
    same : (xs : List A) (next : ℕ) → map view.value (copy_each copy xs next).0 ≡ map view.value xs
    same [] next = refl
    same (x ∷ xs) next = rw (deep.same x next, same xs (copy x next).1) refl

    fills :
        (xs : List A) (next : ℕ)
        → Fills next (copy_each copy xs next).1 (refs_each view.refs (copy_each copy xs next).0)
    fills [] next = refl
    fills (x ∷ xs) next = Fills-append _ _ _ _ _ (deep.fills x next) (fills xs (copy x next).1)

entries-IsDeep : IsDeep entries copy_entries
entries-IsDeep = record { same = λ m _. insert_all_nil m.entries m.distinct; fills = λ _ _. refl }

-- A slice or a map is a pointer to its elements that reads as `list_of` its value.
list_of-IsDeep :
    {A V : Type 0} {view : View A (List V)} {copy : A → Alloc A}
    → IsDeep view copy
    → IsDeep
        (record { value = λ s. list_of (value_of view.value s); refs = refs_of view.refs })
        (copy_some copy)
list_of-IsDeep deep =
    let pointer = ptr-IsDeep deep in
    record { same = λ s next. ap list_of (pointer.same s next); fills = pointer.fills }

pub slice-IsDeep :
    {A V : Type 0} {view : View A V} {copy : A → Alloc A}
    → IsDeep view copy
    → IsDeep (slice view) (copy_some (copy_each copy))
slice-IsDeep deep = list_of-IsDeep (each-IsDeep deep)

pub flat_slice-IsDeep : {A : Type 0} → IsDeep (flat_slice {A = A}) (copy_some pure)
flat_slice-IsDeep = list_of-IsDeep flat-IsDeep

pub string_map-IsDeep : IsDeep string_map (copy_some copy_entries)
string_map-IsDeep = list_of-IsDeep entries-IsDeep
