-- ===== src/Rest/Memory/Profiles.antt =====
-- The profiles of the API in memory keep `ProfileLaws`.
use pd_manager.Common.{
  ◌≡◌, ◌≢◌, ◌⊎◌, inr, Option, none, some, ok, err, Error, refl, sym, ap, ◌∙◌, false,
}
use pd_manager.Api.{is_zero, NamespacedName, PdEngineProfile}
use pd_manager.Cluster.{profile_key}
use pd_manager.Cluster.Keyed.{find, put, find-key, find-put_self, find-put_ne}
use pd_manager.Rest.{ProfileLaws}
use pd_manager.Rest.Memory.{
  Objects, memory, find_profile, add_profile, replace_profile, marked_profile, mark_profile,
  found-some, found-none,
}

module _ (s : PdEngineProfile) (w : Objects) where
  add_profile-stores :
      (o : Option PdEngineProfile) (s' : PdEngineProfile)
      → (add_profile o s w).0 ≡ ok s'
      → (find_profile (profile_key s) (add_profile o s w).1 ≡ some s') × (s'.spec ≡ s.spec)
  add_profile-stores none s' done =
      let same : s ≡ s' = cc in
      (find-put_self profile_key s w.profiles ∙ ap some same, ap (λ x. x.spec) (sym same))
  add_profile-stores (some old) s' done = cc

  add_profile-others :
      (o : Option PdEngineProfile) (k : NamespacedName)
      → k ≢ profile_key s
      → find_profile k (add_profile o s w).1 ≡ find_profile k w
  add_profile-others none k h = find-put_ne profile_key s k w.profiles h
  add_profile-others (some old) k h = refl

  replace_profile-stores :
      (o : Option PdEngineProfile) (s' : PdEngineProfile)
      → (replace_profile o s w).0 ≡ ok s'
      → (find_profile (profile_key s) (replace_profile o s w).1 ≡ some s') × (s'.spec ≡ s.spec)
  replace_profile-stores none s' done = cc
  replace_profile-stores (some old) s' done =
      let same : s ≡ s' = cc in
      (find-put_self profile_key s w.profiles ∙ ap some same, ap (λ x. x.spec) (sym same))

  replace_profile-others :
      (o : Option PdEngineProfile) (k : NamespacedName)
      → k ≢ profile_key s
      → find_profile k (replace_profile o s w).1 ≡ find_profile k w
  replace_profile-others none k h = refl
  replace_profile-others (some old) k h = find-put_ne profile_key s k w.profiles h

module _ (key : NamespacedName) (w : Objects) where
  mark_profile-stores :
      (o : Option PdEngineProfile)
      → find_profile key w ≡ o
      → (mark_profile o w).0 ≡ ok tt
      → (find_profile key (mark_profile o w).1 ≡ none)
        ⊎ ((s' : PdEngineProfile) × (find_profile key (mark_profile o w).1 ≡ some s')
            × (is_zero s'.metadata.deletion_timestamp ≡ false))
  mark_profile-stores none there done = cc
  mark_profile-stores (some old) there done = inr (
    marked_profile old,
    ap (λ k. find profile_key k (put profile_key (marked_profile old) w.profiles))
          (sym (find-key profile_key key w.profiles there))
        ∙ find-put_self profile_key (marked_profile old) w.profiles,
    refl,
  )

  mark_profile-missing :
      (o : Option PdEngineProfile) (e : Error)
      → find_profile key w ≡ o
      → (mark_profile o w).0 ≡ err e
      → find_profile key (mark_profile o w).1 ≡ none
  mark_profile-missing none e there done = there
  mark_profile-missing (some old) e there done = cc

  mark_profile-others :
      (o : Option PdEngineProfile) (k : NamespacedName)
      → find_profile key w ≡ o
      → k ≢ key
      → find_profile k (mark_profile o w).1 ≡ find_profile k w
  mark_profile-others none k there h = refl
  mark_profile-others (some old) k there h =
      find-put_ne profile_key (marked_profile old) k w.profiles
        (λ e. h (e ∙ find-key profile_key key w.profiles there))

pub memory_profile_laws : ProfileLaws memory
memory_profile_laws = record {
  stored = find_profile;
  get_key = λ k w s h. find-key profile_key k w.profiles (found-some _ s h);
  get_stored = λ k w s h. found-some _ s h;
  get_missing = λ k w e h _. found-none _ e h;
  create_stores = λ s s' w done. add_profile-stores s w (find_profile (profile_key s) w) s' done;
  update_stores =
      λ s s' w done. replace_profile-stores s w (find_profile (profile_key s) w) s' done;
  delete_marks =
      λ s w done. mark_profile-stores (profile_key s) w (find_profile (profile_key s) w) refl done;
  delete_missing =
      λ s w e h _. mark_profile-missing (profile_key s) w (find_profile (profile_key s) w) e refl h;
  create_others = λ s w k h. add_profile-others s w (find_profile (profile_key s) w) k h;
  update_others = λ s w k h. replace_profile-others s w (find_profile (profile_key s) w) k h;
  delete_others =
      λ s w k h. mark_profile-others (profile_key s) w (find_profile (profile_key s) w) k refl h;
}
