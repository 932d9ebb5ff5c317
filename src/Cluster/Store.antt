-- ===== src/Cluster/Store.antt =====
-- An API server in memory. It shows that `ClientLaws` can hold, and runs in the tests.
pub mod Answers
use pd_manager.Common.{
  ok-injective, ◌≡◌, ◌≢◌, Option, none, some, List, Result, ok, err, Error, not_found, failure,
  refl, sym, ap, ◌∙◌,
}
use pd_manager.Platform.{Platform}
use pd_manager.Api.{
  Time, NamespacedName, PdEngineProfile, PdInferenceService, PdInferenceServiceSpec,
}
use pd_manager.Workload.{RoleBasedGroup}
use pd_manager.Webhook.{default_spec}
use pd_manager.Cluster.Defs.{profile_key, service_key, group_key, Client, ClientLaws, IsFresh}
use pd_manager.Cluster.Keyed.{find, put, find-key, find-put_self, find-put_ne}

pub record State (p : Platform) : Type 0 where
  pub clock : Time
  pub services : List PdInferenceService
  pub profiles : List PdEngineProfile
  pub groups : List (RoleBasedGroup p.Quantity)

abbrev pub found_or_missing {ℓ} : {A : Type ℓ} → Option A → Result A
found_or_missing none = err (not_found "not found")
found_or_missing (some a) = ok a

module _ (p : Platform) where
  abbrev find_service : NamespacedName → State p → Option PdInferenceService
  find_service k w = find service_key k w.services

  abbrev find_group : NamespacedName → State p → Option (RoleBasedGroup p.Quantity)
  find_group k w = find group_key k w.groups

  abbrev put_service : PdInferenceService → State p → State p
  put_service s w = record w { services = put service_key s w.services }

  abbrev put_group : RoleBasedGroup p.Quantity → State p → State p
  put_group g w = record w { groups = put group_key g w.groups }

  -- A write of a service that is there: `merge` makes the new object from the old one.
  abbrev pub rewrite :
      Option PdInferenceService
      → (PdInferenceService → PdInferenceService)
      → State p
      → Result PdInferenceService × State p
  rewrite none merge w = (err (not_found "not found"), w)
  rewrite (some old) merge w = (ok (merge old), put_service (merge old) w)

  abbrev store_service : PdInferenceService → State p → Result PdInferenceService × State p
  store_service s w =
      rewrite (find_service (service_key s) w)
        (λ old. record { metadata = s.metadata; spec = default_spec s.spec; status = old.status }) w

  abbrev store_status : PdInferenceService → State p → Result PdInferenceService × State p
  store_status s w =
      rewrite (find_service (service_key s) w) (λ old. record old { status = s.status }) w

  abbrev pub add_group :
      Option (RoleBasedGroup p.Quantity)
      → RoleBasedGroup p.Quantity
      → State p
      → Result (Unit {0}) × State p
  add_group none g w = (ok tt, put_group g w)
  add_group (some old) g w = (err (failure "already exists"), w)

  abbrev pub replace_group :
      Option (RoleBasedGroup p.Quantity)
      → RoleBasedGroup p.Quantity
      → State p
      → Result (Unit {0}) × State p
  replace_group none g w = (err (not_found "not found"), w)
  replace_group (some old) g w = (ok tt, put_group g w)

  abbrev pub store : Client p
  store = record {
    World = State p;
    now = λ w. w.clock;
    get_service = λ k w. found_or_missing (find_service k w);
    get_profile = λ k w. found_or_missing (find profile_key k w.profiles);
    get_group = λ k w. found_or_missing (find_group k w);
    update_service = store_service;
    update_status = store_status;
    create_group = λ g w. add_group (find_group (group_key g) w) g w;
    update_group = λ g w. replace_group (find_group (group_key g) w) g w;
  }

  -- A write of a service leaves the groups alone.
  rewrite-groups :
      (old : Option PdInferenceService) (merge : PdInferenceService → PdInferenceService)
      (w : State p)
      → (rewrite old merge w).1.groups ≡ w.groups
  rewrite-groups none merge w = refl
  rewrite-groups (some old) merge w = refl

  rewrite-stores :
      (found : Option PdInferenceService) (merge : PdInferenceService → PdInferenceService)
      (k : NamespacedName) (old s' : PdInferenceService) (w : State p)
      → found ≡ some old
      → service_key (merge old) ≡ k
      → (rewrite found merge w).0 ≡ ok s'
      → (find_service k (rewrite found merge w).1 ≡ some s') × (s' ≡ merge old)
  rewrite-stores none merge k old s' w there key done = cc
  rewrite-stores (some x) merge k old s' w there key done =
      let same : x ≡ old = cc in
      let sent : s' ≡ merge x = cc in
      (
        ap (λ j. find service_key j (put service_key (merge x) w.services))
              (sym (ap (λ o. service_key (merge o)) same ∙ key))
            ∙ find-put_self service_key (merge x) w.services
            ∙ ap some (sym sent),
        sent ∙ ap merge same,
      )

  rewrite-key :
      (found : Option PdInferenceService) (merge : PdInferenceService → PdInferenceService)
      (s s' : PdInferenceService) (w : State p)
      → ((old : PdInferenceService) → service_key (merge old) ≡ service_key s)
      → (rewrite found merge w).0 ≡ ok s'
      → service_key s' ≡ service_key s
  rewrite-key none merge s s' w keeps h = cc
  rewrite-key (some old) merge s s' w keeps h =
      ap service_key (sym (ok-injective _ _ h)) ∙ keeps old

  rewrite-accepted :
      (found : Option PdInferenceService) (merge : PdInferenceService → PdInferenceService)
      (old : PdInferenceService) (w : State p)
      → found ≡ some old
      → (rewrite found merge w).0 ≡ ok (merge old)
  rewrite-accepted none merge old w there = cc
  rewrite-accepted (some x) merge old w there = cc

  found-eq-ok : {A : Type 0} (o : Option A) (a : A) → found_or_missing o ≡ ok a → o ≡ some a
  found-eq-ok none a h = cc
  found-eq-ok (some b) a h = cc

  module _ (g : RoleBasedGroup p.Quantity) (w : State p) where
    add_group-others :
        (o : Option (RoleBasedGroup p.Quantity)) (k : NamespacedName)
        → k ≢ group_key g
        → find_group k (add_group o g w).1 ≡ find_group k w
    add_group-others none k h = find-put_ne group_key g k w.groups h
    add_group-others (some old) k h = refl

    add_group-stores :
        (o : Option (RoleBasedGroup p.Quantity))
        → (add_group o g w).0 ≡ ok tt
        → find_group (group_key g) (add_group o g w).1 ≡ some g
    add_group-stores none done = find-put_self group_key g w.groups
    add_group-stores (some old) done = cc

    add_group-services :
        (o : Option (RoleBasedGroup p.Quantity)) → (add_group o g w).1.services ≡ w.services
    add_group-services none = refl
    add_group-services (some old) = refl

    replace_group-others :
        (o : Option (RoleBasedGroup p.Quantity)) (k : NamespacedName)
        → k ≢ group_key g
        → find_group k (replace_group o g w).1 ≡ find_group k w
    replace_group-others none k h = refl
    replace_group-others (some old) k h = find-put_ne group_key g k w.groups h

    replace_group-stores :
        (o : Option (RoleBasedGroup p.Quantity))
        → (replace_group o g w).0 ≡ ok tt
        → find_group (group_key g) (replace_group o g w).1 ≡ some g
    replace_group-stores none done = cc
    replace_group-stores (some old) done = find-put_self group_key g w.groups

    replace_group-services :
        (o : Option (RoleBasedGroup p.Quantity)) → (replace_group o g w).1.services ≡ w.services
    replace_group-services none = refl
    replace_group-services (some old) = refl

-- The server in memory keeps the laws.
pub store_laws : (p : Platform) → ClientLaws p (store p)
store_laws p = record {
  stored_service = find_service p;
  stored_group = find_group p;
  admit = default_spec;
  get_service_key = λ k w s h. find-key service_key k w.services (found-eq-ok p _ s h);
  get_group_key = λ k w g h. find-key group_key k w.groups (found-eq-ok p _ g h);
  update_service_groups =
      λ s w k. ap (find group_key k) (rewrite-groups p (find_service p (service_key s) w) _ w);
  update_status_groups =
      λ s w k. ap (find group_key k) (rewrite-groups p (find_service p (service_key s) w) _ w);
  update_service_key =
      λ s s' w h. rewrite-key p (find_service p (service_key s) w) _ s s' w (λ _. refl) h;
  update_service_stores = λ s old s' w _ there done.
      rewrite-stores p (find_service p (service_key s) w) _ (service_key s) old s' w there refl
        done;
  update_status_stores = λ s old s' w there done.
      rewrite-stores p (find_service p (service_key s) w) _ (service_key s) old s' w there
        (find-key service_key (service_key s) w.services there) done;
  update_status_keeps = λ s old w there.
      let found = find_service p (service_key s) w in
      let merge : PdInferenceService → PdInferenceService = λ o. record o { status = s.status } in
      (
        s.status,
        (rewrite-stores p found merge (service_key s) old (merge old) w there
            (find-key service_key (service_key s) w.services there)
            (rewrite-accepted p found merge old w there)).0,
      );
  create_group_others = λ g w k h. add_group-others p g w (find_group p (group_key g) w) k h;
  create_group_stores = λ g w done. add_group-stores p g w (find_group p (group_key g) w) done;
  create_group_services =
      λ g w k. ap (find service_key k) (add_group-services p g w (find_group p (group_key g) w));
  update_group_others = λ g w k h. replace_group-others p g w (find_group p (group_key g) w) k h;
  update_group_stores = λ g w done. replace_group-stores p g w (find_group p (group_key g) w) done;
  update_group_services = λ g w k.
      ap (find service_key k) (replace_group-services p g w (find_group p (group_key g) w));
}

pub store_laws-stored_group :
    (p : Platform) (k : NamespacedName) (w : State p)
    → (store_laws p).stored_group k w ≡ find group_key k w.groups
unfolding store_laws
store_laws-stored_group p k w = refl

-- Its reads are up to date.
pub store-IsFresh :
    (p : Platform) (k : NamespacedName) (w : State p) → IsFresh p (store p) (store_laws p) k w
unfolding store_laws
store-IsFresh p k w s h = found-eq-ok p _ s h

pub store_laws-admit :
    (p : Platform) (spec : PdInferenceServiceSpec) → (store_laws p).admit spec ≡ default_spec spec
unfolding store_laws
store_laws-admit p spec = refl
