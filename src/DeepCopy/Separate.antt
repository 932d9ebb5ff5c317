-- ===== src/DeepCopy/Separate.antt =====
-- What deep copies of whole objects promise their callers: nothing that is written through the copy
-- is seen through the original.
use pd_manager.Common.{ℕ, suc, ◌≤◌, ◌<◌, ◌≡◌, inl, inr, List, [], ◌∷◌, All, Any, arith}
use pd_manager.DeepCopy.Alloc.{Ptr}
use pd_manager.DeepCopy.Views.{Fills, ptr, ptr-IsDeep}
use pd_manager.DeepCopy.Library.{Library, LibraryLaws}
use pd_manager.DeepCopy.Services.{
  GoPdInferenceService, GoPdInferenceServiceList, inference_service_view,
  inference_service_deep_copy, inference_service_deep_copy_into-IsDeep, inference_service_list_view,
  inference_service_list_deep_copy, inference_service_list_deep_copy_into-IsDeep,
}
use pd_manager.DeepCopy.Profiles.{
  GoPdEngineProfile, no_commands, all_commands, engine_profile_view, engine_profile_deep_copy_into,
  engine_profile_deep_copy_into-IsDeep, engine_profile_deep_copy_into-role_commands,
}

-- No address is there twice.
abbrev AreDistinct : List ℕ → Type 0
AreDistinct [] = Unit
AreDistinct (k ∷ ks) = (¬ Any (λ j. j ≡ k) ks) × AreDistinct ks

-- The addresses of a copy against those of the original.
pub record AreNew (olds news : List ℕ) : Type 0 where
  pub apart : (k : ℕ) → Any (λ j. j ≡ k) news → ¬ Any (λ j. j ≡ k) olds
  pub distinct : AreDistinct news

Any-below : (bound k : ℕ) (ks : List ℕ) → All (λ j. j < bound) ks → Any (λ j. j ≡ k) ks → k < bound
Any-below bound k [] below there = absurd there
Any-below bound k (j ∷ ks) below there = elim there [
  | inl here ↦ omega (arith, below.0, here)
  | inr later ↦ Any-below bound k ks below.1 later
]

Fills-above :
    (next after k : ℕ) (ks : List ℕ) → Fills next after ks → Any (λ j. j ≡ k) ks → next ≤ k
Fills-above next after k [] fills there = absurd there
Fills-above next after k (j ∷ ks) fills there = elim there [
  | inl here ↦ omega (arith, fills.0, here)
  | inr later ↦ omega (arith, Fills-above (suc next) after k ks fills.1 later)
]

Fills-AreDistinct : (next after : ℕ) (ks : List ℕ) → Fills next after ks → AreDistinct ks
Fills-AreDistinct next after [] fills = tt
Fills-AreDistinct next after (j ∷ ks) fills = (
  λ there. absurd (omega (arith, fills.0, Fills-above (suc next) after j ks fills.1 there)),
  Fills-AreDistinct (suc next) after ks fills.1,
)

-- Addresses that are allocated from `next` on are new next to addresses below `next`.
Fills-AreNew :
    (next after : ℕ) (olds news : List ℕ)
    → All (λ j. j < next) olds
    → Fills next after news
    → AreNew olds news
Fills-AreNew next after olds news below fills = record {
  apart = λ k there old.
      absurd
        (omega (arith, Any-below next k olds below old, Fills-above next after k news fills there));
  distinct = Fills-AreDistinct next after news fills;
}

-- If the deep copies of the library are deep and all memory of the original lies below the next
-- free address, then the deep copy of a service, or of a nil pointer, reads as the original; no
-- memory that it refers to, at any depth, belongs to the original, and none is referred to twice.
pub inference_service_deep_copy-AreNew :
    (l : Library) (laws : LibraryLaws l) (p : Ptr (GoPdInferenceService l)) (next : ℕ)
    → All (λ k. k < next) ((ptr (inference_service_view l)).refs p)
    → ((ptr (inference_service_view l)).value (inference_service_deep_copy l p next).0
        ≡ (ptr (inference_service_view l)).value p)
      × AreNew
          ((ptr (inference_service_view l)).refs p)
          ((ptr (inference_service_view l)).refs (inference_service_deep_copy l p next).0)
inference_service_deep_copy-AreNew l laws p next below =
    let deep = ptr-IsDeep (inference_service_deep_copy_into-IsDeep l laws) in
    (deep.same p next, Fills-AreNew next _ _ _ below (deep.fills p next))

-- The same for a list of services, as the client's cache hands them out.
inference_service_list_deep_copy-AreNew :
    (l : Library) (laws : LibraryLaws l) (p : Ptr (GoPdInferenceServiceList l)) (next : ℕ)
    → All (λ k. k < next) ((ptr (inference_service_list_view l)).refs p)
    → ((ptr (inference_service_list_view l)).value (inference_service_list_deep_copy l p next).0
        ≡ (ptr (inference_service_list_view l)).value p)
      × AreNew
          ((ptr (inference_service_list_view l)).refs p)
          ((ptr (inference_service_list_view l)).refs (inference_service_list_deep_copy l p next).0)
inference_service_list_deep_copy-AreNew l laws p next below =
    let deep = ptr-IsDeep (inference_service_list_deep_copy_into-IsDeep l laws) in
    (deep.same p next, Fills-AreNew next _ _ _ below (deep.fills p next))

-- If the deep copies of the library are deep and all memory of the original lies below the next
-- free address, then the deep copy of a profile reads as the original, and all memory that it
-- refers to is new and referred to once, but for the role commands: those are the original's own.
pub engine_profile_deep_copy-shares :
    (l : Library) (laws : LibraryLaws l) (x : GoPdEngineProfile l) (next : ℕ)
    → All (λ k. k < next) ((engine_profile_view l all_commands).refs x)
    → ((engine_profile_view l all_commands).value (engine_profile_deep_copy_into l x next).0
        ≡ (engine_profile_view l all_commands).value x)
      × AreNew
          ((engine_profile_view l all_commands).refs x)
          ((engine_profile_view l no_commands).refs (engine_profile_deep_copy_into l x next).0)
      × ((engine_profile_deep_copy_into l x next).0.spec.role_commands ≡ x.spec.role_commands)
engine_profile_deep_copy-shares l laws x next below =
    let deep = engine_profile_deep_copy_into-IsDeep l laws in
    (
      deep.same x next,
      Fills-AreNew next _ _ _ below (deep.fills x next),
      engine_profile_deep_copy_into-role_commands l laws x next,
    )
