-- ===== src/DeepCopy/Entries.antt =====
-- Filling a map entry by entry.
use mathlib.Core.Path.{subst}
use mathlib.Core.List.{append-nil, append_assoc}
use pd_manager.Common.{
  ◌≡◌, ◌≢◌, sym, ◌∙◌, eq_refl, String, none, [], ◌∷◌, ◌++◌, GoMap, IsMap, lookup, insert,
  lookup-insert, refl, arith, eq_iff,
}

unfoldable pub insert_all : {V : Type 0} → GoMap V → GoMap V → GoMap V
insert_all [] out = out
insert_all ((k, v) ∷ m) out = insert_all m (insert k v out)

insert-IsMap : {V : Type 0} (k : String) (v : V) (m : GoMap V) → IsMap m → IsMap (insert k v m)
insert-IsMap k v [] h = (refl, tt)
insert-IsMap k v ((j, w) ∷ m) h =
    ground (arith, eq_iff k j, eq_iff j k, insert-IsMap k v m h.1, lookup-insert k j v m)

pub insert_all-IsMap : {V : Type 0} (m out : GoMap V) → IsMap out → IsMap (insert_all m out)
unfolding insert_all
insert_all-IsMap [] out h = h
insert_all-IsMap ((k, v) ∷ m) out h = insert_all-IsMap m (insert k v out) (insert-IsMap k v out h)

-- A new key goes to the end.
insert_new :
    {V : Type 0} (k : String) (v : V) (m : GoMap V)
    → lookup k m ≡ none
    → insert k v m ≡ m ++ ((k, v) ∷ [])
insert_new k v [] h = refl
insert_new k v ((j, w) ∷ m) h = ground (arith, insert_new k v m)

lookup-append_key :
    {V : Type 0} (out m : GoMap V) (k : String) (v : V) → lookup k (out ++ ((k, v) ∷ m)) ≢ none
lookup-append_key [] m k v = ground (arith, eq_refl k)
lookup-append_key ((j, w) ∷ out) m k v = ground (arith, lookup-append_key out m k v)

-- Of entries that have no key twice, the key between two parts is not in the first.
IsMap-new :
    {V : Type 0} (out m : GoMap V) (k : String) (v : V)
    → IsMap (out ++ ((k, v) ∷ m))
    → lookup k out ≡ none
IsMap-new [] m k v h = refl
IsMap-new ((j, w) ∷ out) m k v h =
    ground (arith, eq_iff k j, lookup-append_key out m k v, IsMap-new out m k v h.1)

-- Entries that have no key twice are filled in in their order.
insert_all-append : {V : Type 0} (m out : GoMap V) → IsMap (out ++ m) → insert_all m out ≡ out ++ m
unfolding insert_all
insert_all-append [] out h = sym (append-nil out)
insert_all-append ((k, v) ∷ m) out h =
    let added = insert_new k v out (IsMap-new out m k v h) in
    let moved = append_assoc out ((k, v) ∷ []) m in
    rw added (insert_all-append m (out ++ ((k, v) ∷ [])) (subst IsMap (sym moved) h) ∙ moved)

pub insert_all_nil : {V : Type 0} (m : GoMap V) → IsMap m → insert_all m [] ≡ m
insert_all_nil m h = insert_all-append m [] h
