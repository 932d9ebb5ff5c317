-- ===== src/Controller/Trace.antt =====
-- The writes of a reconciliation, in their order. The client under the log is any client at all: its
-- answers and its state may be changed by other writers between any two calls.
use pd_manager.Common.{ℕ, suc, ◌≤◌, ◌≡◌, List, [], ◌∷◌, ◌++◌, All, arith}
use pd_manager.Platform.{Platform}
use pd_manager.Cluster.{Client, service_key, group_key}
use pd_manager.Api.{NamespacedName, PdInferenceService}
use pd_manager.Workload.{RoleBasedGroup}

-- A write, with the object that is sent.
pub data Write (p : Platform) : Type 0 where
  service_write : PdInferenceService → Write p
  status_write : PdInferenceService → Write p
  creation : RoleBasedGroup p.Quantity → Write p
  group_write : RoleBasedGroup p.Quantity → Write p

abbrev key_of : {p : Platform} → Write p → NamespacedName
key_of (service_write s) = service_key s
key_of (status_write s) = service_key s
key_of (creation g) = group_key g
key_of (group_write g) = group_key g

-- The place of a write in a reconciliation: the service, then the group, then the status.
abbrev stage : {p : Platform} → Write p → ℕ
stage (service_write s) = 0
stage (creation g) = 1
stage (group_write g) = 1
stage (status_write s) = 2

-- The stages go up from `from`, each at most once, and stay below `bound`.
abbrev IsStaged : {p : Platform} → ℕ → ℕ → List (Write p) → Type 0
IsStaged from bound [] = from ≤ bound
IsStaged from bound (x ∷ writes) = (from ≤ stage x) × IsStaged (suc (stage x)) bound writes

-- The same client, which notes each write down, also one that is refused.
abbrev pub logged : (p : Platform) → Client p → Client p
logged p c = record {
  World = c.World × List (Write p);
  now = λ w. c.now w.0;
  get_service = λ k w. c.get_service k w.0;
  get_profile = λ k w. c.get_profile k w.0;
  get_group = λ k w. c.get_group k w.0;
  update_service =
      λ s w. let r = c.update_service s w.0 in (r.0, (r.1, w.1 ++ (service_write s ∷ [])));
  update_status =
      λ s w. let r = c.update_status s w.0 in (r.0, (r.1, w.1 ++ (status_write s ∷ [])));
  create_group = λ g w. let r = c.create_group g w.0 in (r.0, (r.1, w.1 ++ (creation g ∷ [])));
  update_group = λ g w. let r = c.update_group g w.0 in (r.0, (r.1, w.1 ++ (group_write g ∷ [])));
}

module _ {p : Platform} (k : NamespacedName) where
  -- All writes so far are to the key `k`, and the next one may be of stage `n`.
  abbrev pub IsInOrder : ℕ → List (Write p) → Type 0
  IsInOrder n writes = All (λ x. key_of x ≡ k) writes × IsStaged 0 n writes

  IsStaged-append :
      (from n : ℕ) (writes : List (Write p)) (x : Write p)
      → IsStaged from n writes
      → n ≤ stage x
      → IsStaged from (suc (stage x)) (writes ++ (x ∷ []))
  IsStaged-append from n [] x h next = (omega (arith, h, next), omega arith)
  IsStaged-append from n (y ∷ writes) x h next =
      (h.0, IsStaged-append (suc (stage y)) n writes x h.1 next)

  IsStaged-weaken :
      (from n m : ℕ) (writes : List (Write p))
      → IsStaged from n writes
      → n ≤ m
      → IsStaged from m writes
  IsStaged-weaken from n m [] h le = omega (arith, h, le)
  IsStaged-weaken from n m (y ∷ writes) h le =
      (h.0, IsStaged-weaken (suc (stage y)) n m writes h.1 le)

  All-append :
      (writes : List (Write p)) (x : Write p)
      → All (λ y. key_of y ≡ k) writes
      → key_of x ≡ k
      → All (λ y. key_of y ≡ k) (writes ++ (x ∷ []))
  All-append [] x h own = (own, tt)
  All-append (y ∷ writes) x h own = (h.0, All-append writes x h.1 own)

  pub IsInOrder-append :
      (n : ℕ) (writes : List (Write p)) (x : Write p)
      → IsInOrder n writes
      → key_of x ≡ k
      → n ≤ stage x
      → IsInOrder (suc (stage x)) (writes ++ (x ∷ []))
  IsInOrder-append n writes x h own next =
      (All-append writes x h.0 own, IsStaged-append 0 n writes x h.1 next)

  pub IsInOrder-weaken :
      (n m : ℕ) (writes : List (Write p)) → IsInOrder n writes → n ≤ m → IsInOrder m writes
  IsInOrder-weaken n m writes h le = (h.0, IsStaged-weaken 0 n m writes h.1 le)
