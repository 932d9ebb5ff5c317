-- ===== src/Cluster/Store/Answers.antt =====
-- The server in memory answers every request.
use pd_manager.Common.{
  ◌≡◌, ◌⊎◌, inl, inr, true, Option, some, none, ok, err, Error, is_not_found, refl, ap,
}
use pd_manager.Platform.{Platform}
use pd_manager.Api.{PdInferenceService}
use pd_manager.Workload.{RoleBasedGroup}
use pd_manager.Cluster.Defs.{
  service_key, group_key, profile_key, AnswersByKey, ServerAnswers, KeepsProfiles,
}
use pd_manager.Cluster.Keyed.{find}
use pd_manager.Cluster.Store.{
  State, store, store_laws, found_or_missing, rewrite, add_group, replace_group,
}

module _ (p : Platform) where
  rewrite_accepts :
      (found : Option PdInferenceService) (merge : PdInferenceService → PdInferenceService)
      (w : State p) (old : PdInferenceService)
      → found ≡ some old
      → (s' : PdInferenceService) × ((rewrite p found merge w).0 ≡ ok s')
  rewrite_accepts none merge w old h = cc
  rewrite_accepts (some x) merge w old h = (merge x, refl)

  found_or_missing-cases :
      {A : Type 0} (o : Option A)
      → ((a : A) × (found_or_missing o ≡ ok a))
        ⊎ ((e : Error) × (found_or_missing o ≡ err e) × (is_not_found e ≡ true))
  found_or_missing-cases none = inr (_, refl, refl)
  found_or_missing-cases (some a) = inl (a, refl)

  add_group_accepts :
      (o : Option (RoleBasedGroup p.Quantity)) (g : RoleBasedGroup p.Quantity) (e : Error)
      (w : State p)
      → found_or_missing o ≡ err e
      → (add_group p o g w).0 ≡ ok tt
  add_group_accepts none g e w h = refl
  add_group_accepts (some old) g e w h = cc

  replace_group_accepts :
      (o : Option (RoleBasedGroup p.Quantity)) (g old : RoleBasedGroup p.Quantity) (w : State p)
      → found_or_missing o ≡ ok old
      → (replace_group p o g w).0 ≡ ok tt
  replace_group_accepts none g old w h = cc
  replace_group_accepts (some x) g old w h = refl

pub store_answers : (p : Platform) → ServerAnswers p (store p) (store_laws p)
unfolding store_laws
store_answers p = record {
  group_answers = λ k w. found_or_missing-cases p (find group_key k w.groups);
  service_accepted =
      λ s old w h. rewrite_accepts p (find service_key (service_key s) w.services) _ w old h;
  status_accepted =
      λ s old w h. rewrite_accepts p (find service_key (service_key s) w.services) _ w old h;
  create_accepted =
      λ g e w h _. add_group_accepts p (find group_key (group_key g) w.groups) g e w h;
  update_accepted =
      λ g old w h. replace_group_accepts p (find group_key (group_key g) w.groups) g old w h;
}

pub store_answers_by_key : (p : Platform) → AnswersByKey p (store p)
store_answers_by_key p = record {
  get_service_key = (store_laws p).get_service_key;
  get_group_key = (store_laws p).get_group_key;
  update_service_key = λ s s' w h. (store_laws p).update_service_key s s' w h;
}

module _ (p : Platform) where
  rewrite-profiles :
      (found : Option PdInferenceService) (merge : PdInferenceService → PdInferenceService)
      (w : State p)
      → (rewrite p found merge w).1.profiles ≡ w.profiles
  rewrite-profiles none merge w = refl
  rewrite-profiles (some old) merge w = refl

  add_group-profiles :
      (o : Option (RoleBasedGroup p.Quantity)) (g : RoleBasedGroup p.Quantity) (w : State p)
      → (add_group p o g w).1.profiles ≡ w.profiles
  add_group-profiles none g w = refl
  add_group-profiles (some old) g w = refl

  replace_group-profiles :
      (o : Option (RoleBasedGroup p.Quantity)) (g : RoleBasedGroup p.Quantity) (w : State p)
      → (replace_group p o g w).1.profiles ≡ w.profiles
  replace_group-profiles none g w = refl
  replace_group-profiles (some old) g w = refl

  pub store_keeps_profiles : KeepsProfiles p (store p)
  store_keeps_profiles = record {
    update_service_profiles = λ s w k.
        ap (λ ps. found_or_missing (find profile_key k ps))
          (rewrite-profiles (find service_key (service_key s) w.services) _ w);
    update_status_profiles = λ s w k.
        ap (λ ps. found_or_missing (find profile_key k ps))
          (rewrite-profiles (find service_key (service_key s) w.services) _ w);
    create_group_profiles = λ g w k.
        ap (λ ps. found_or_missing (find profile_key k ps))
          (add_group-profiles (find group_key (group_key g) w.groups) g w);
    update_group_profiles = λ g w k.
        ap (λ ps. found_or_missing (find profile_key k ps))
          (replace_group-profiles (find group_key (group_key g) w.groups) g w);
  }
