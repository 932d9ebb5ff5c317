-- ===== src/Rest/Catalog/Refines.antt =====
-- The handlers of the profiles implement the catalogue.
use mathlib.Core.Option
use mathlib.Core.Path.{subst}
use pd_manager.Common.{
  ◌≡◌, inl, inr, String, some, ok, err, is_not_found, refl, sym, ap, ◌∙◌, Bool-cases, Result-cases,
}
use pd_manager.Api.{NamespacedName, PdEngineProfile, PdEngineProfileSpec}
use pd_manager.Cluster.{profile_key}
use pd_manager.Rest.{
  Backend, ProfileLaws, default_key, list_profiles_handler, create_profile_handler,
  create_profile_decoded, get_profile_handler, update_profile_handler, update_profile_on,
  delete_profile_handler, delete_profile_on,
}
use pd_manager.Rest.Catalog.{
  ProfileRequest, list_request, create_request, get_request, update_request, delete_request, handle,
  sent_profile, spec_at, KeepsOthers, IsLeaving, Meets,
}

module _ (b : Backend) (laws : ProfileLaws b) where
  -- What holds of the stored profiles holds of the specs.
  spec_at-kept :
      (k : NamespacedName) (w w' : b.World)
      → laws.stored k w' ≡ laws.stored k w
      → spec_at b laws k w' ≡ spec_at b laws k w
  spec_at-kept k w w' same = ap (Option.map (λ s. s.spec)) same

  spec_at-stored :
      (k : NamespacedName) (w : b.World) (s : PdEngineProfile) (spec : PdEngineProfileSpec)
      → laws.stored k w ≡ some s
      → s.spec ≡ spec
      → spec_at b laws k w ≡ some spec
  spec_at-stored k w s spec held same = ap (Option.map (λ s. s.spec)) held ∙ ap some same

  list-Meets : (w : b.World) → Meets b laws list_request w (list_profiles_handler b w)
  unfolding list_profiles_handler
  list-Meets w = elim (Result-cases (b.list_profiles "default" w)) [
    | inl (items, listed) ↦ rw listed (inl refl, λ _. refl)
    | inr (e, failed) ↦ rw failed (inr refl, λ _. refl)
  ]

  create-Meets :
      (profile : PdEngineProfile) (w : b.World)
      → Meets b laws (create_request (ok profile)) w (create_profile_decoded b profile w)
  create-Meets profile w =
      let sent = sent_profile profile in
      let after = (b.create_profile sent w).1 in
      elim (Result-cases (b.create_profile sent w).0) [
        | inl (s', accepted) ↦
            let (held, same) = laws.create_stores sent s' w accepted in
            inl (
              rw accepted refl,
              (
                spec_at-stored (profile_key sent) after s' profile.spec held same,
                λ j other. spec_at-kept j w after (laws.create_others sent w j other),
              ),
            )
        | inr (e, refused) ↦
            inr (
              rw refused refl,
              λ j other. spec_at-kept j w after (laws.create_others sent w j other),
            )
      ]

  get-Meets :
      (name : String) (w : b.World)
      → Meets b laws (get_request name) w (get_profile_handler b name w)
  unfolding get_profile_handler
  get-Meets name w = elim (Result-cases (b.get_profile (default_key name) w)) [
    | inl (s, found) ↦
        let held =
          spec_at-stored (default_key name) w s s.spec
            (laws.get_stored (default_key name) w s found) refl in
        rw found (inl (s, refl, refl, held), λ _. refl)
    | inr (e, failed) ↦ elim (Bool-cases (is_not_found e)) [
      | inl missing ↦
          let empty =
            ap (Option.map (λ s. s.spec))
              (laws.get_missing (default_key name) w e failed missing) in
          rw failed (rw missing (inr (inl (refl, empty)), λ _. refl))
      | inr other ↦ rw failed (rw other (inr (inr refl), λ _. refl))
    ]
  ]

  update_on-Meets :
      (name : String) (req profile : PdEngineProfile) (w : b.World)
      → b.get_profile (default_key name) w ≡ ok profile
      → Meets b laws (update_request name (ok req)) w (update_profile_on b req (ok profile) w)
  update_on-Meets name req profile w found =
      let sent : PdEngineProfile = record profile { spec = req.spec } in
      let after = (b.update_profile sent w).1 in
      let key = laws.get_key (default_key name) w profile found in
      let there = laws.get_stored (default_key name) w profile found in
      elim (Result-cases (b.update_profile sent w).0) [
        | inl (s', accepted) ↦
            let (held, same) = laws.update_stores sent s' w accepted in
            inl (
              rw accepted refl,
              λ gone. cc (gone, ap (Option.map (λ s. s.spec)) there),
              (
                spec_at-stored (default_key name) after s' req.spec
                    (ap (λ k. laws.stored k after) (sym key) ∙ held) same,
                λ j other.
                    spec_at-kept j w after (laws.update_others sent w j (λ e. other (e ∙ key))),
              ),
            )
        | inr (e, refused) ↦ inr (
            inr (
              rw refused refl,
              λ j other.
                  spec_at-kept j w after (laws.update_others sent w j (λ e. other (e ∙ key))),
            ))
      ]

  update-Meets :
      (name : String) (req : PdEngineProfile) (w : b.World)
      → Meets b laws
          (update_request name (ok req))
          w
          (update_profile_on b req (b.get_profile (default_key name) w) w)
  update-Meets name req w = elim (Result-cases (b.get_profile (default_key name) w)) [
    | inl (profile, found) ↦ rw found (update_on-Meets name req profile w found)
    | inr (e, failed) ↦ elim (Bool-cases (is_not_found e)) [
      | inl missing ↦
          let empty =
            ap (Option.map (λ s. s.spec))
              (laws.get_missing (default_key name) w e failed missing) in
          rw failed (rw missing (inr (inl (refl, empty, λ _. refl))))
      | inr other ↦ rw failed (rw other (inr (inr (refl, λ _ _. refl))))
    ]
  ]

  delete_on-Meets :
      (name : String) (profile : PdEngineProfile) (w : b.World)
      → b.get_profile (default_key name) w ≡ ok profile
      → Meets b laws (delete_request name) w (delete_profile_on b (ok profile) w)
  delete_on-Meets name profile w found =
      let after = (b.delete_profile profile w).1 in
      let key = laws.get_key (default_key name) w profile found in
      let others : KeepsOthers b laws (default_key name) w after =
        λ j other. spec_at-kept j w after (laws.delete_others profile w j (λ e. other (e ∙ key))) in
      elim (Result-cases (b.delete_profile profile w).0) [
        | inl (done, accepted) ↦ inl (
          rw accepted refl,
          subst (λ k. IsLeaving b laws k after) key (laws.delete_marks profile w accepted),
          others,
        )
        | inr (e, refused) ↦ elim (Bool-cases (is_not_found e)) [
          | inl missing ↦ inl (
            rw refused (rw missing refl),
            subst (λ k. IsLeaving b laws k after) key
                (inl (laws.delete_missing profile w e refused missing)),
            others,
          )
          | inr other ↦ inr (rw refused (rw other refl), others)
        ]
      ]

  delete-Meets :
      (name : String) (w : b.World)
      → Meets b laws
          (delete_request name)
          w
          (delete_profile_on b (b.get_profile (default_key name) w) w)
  delete-Meets name w = elim (Result-cases (b.get_profile (default_key name) w)) [
    | inl (profile, found) ↦ rw found (delete_on-Meets name profile w found)
    | inr (e, failed) ↦ elim (Bool-cases (is_not_found e)) [
      | inl missing ↦ rw failed (
          rw missing
            (inl (refl, inl (laws.get_missing (default_key name) w e failed missing), λ _ _. refl)))
      | inr other ↦ rw failed (rw other (inr (refl, λ _ _. refl)))
    ]
  ]

-- The five profile endpoints implement a catalogue of specs by key. A list or a GET changes nothing;
-- a GET finds the spec under its name, or is answered with 404 where there is none, or with 500. A
-- POST or a PUT that is answered with 201 or 200 sets the spec of its key to the one in its body, a
-- PUT only where there was one. A DELETE that is answered with 200 leaves the profile gone or marked
-- for deletion. No request touches another key, and one that is answered with 400 or 404 changes
-- nothing. What a write that is answered with 500 leaves of its own key is not said.
pub handle-Meets :
    (b : Backend) (laws : ProfileLaws b) (request : ProfileRequest) (w : b.World)
    → Meets b laws request w (handle b request w)
unfolding create_profile_handler update_profile_handler delete_profile_handler
handle-Meets b laws list_request w = list-Meets b laws w
handle-Meets b laws (create_request (err e)) w = (refl, λ _. refl)
handle-Meets b laws (create_request (ok profile)) w = create-Meets b laws profile w
handle-Meets b laws (get_request name) w = get-Meets b laws name w
handle-Meets b laws (update_request name (err e)) w = (refl, λ _. refl)
handle-Meets b laws (update_request name (ok req)) w = update-Meets b laws name req w
handle-Meets b laws (delete_request name) w = delete-Meets b laws name w
