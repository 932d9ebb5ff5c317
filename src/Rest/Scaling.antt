-- ===== src/Rest/Scaling.antt =====
-- What a PUT on a service may change.
use pd_manager.Common.{
  ◌≡◌, ◌≢◌, ◌⊎◌, inl, inr, String, Option, none, some, Result, ok, err, Error, is_not_found, refl,
  sym, ap, ◌∙◌, arith, Bool-cases, String-cases, Result-cases, Option-cases, ℤ,
}
use pd_manager.Api.{NamespacedName, PdInferenceService, PdInferenceServiceSpec, InferenceRoleSpec}
use pd_manager.Rest.{
  RoleUpdate, UpdateRequest, Response, Backend, BackendLaws, default_key, read_error,
  requested_replicas, scale, update, update_on, http_error, ok_header, server_error,
}

-- The replicas of a role after a request: those that it names, or else the old ones.
abbrev pub Replicas : Option RoleUpdate → ℤ → ℤ → Type 0
Replicas asked before after =
    ((u : RoleUpdate) (n : ℤ) → asked ≡ some u → u.replicas ≡ some n → after ≡ n)
    × ((asked ≡ none) ⊎ ((u : RoleUpdate) × (asked ≡ some u) × (u.replicas ≡ none))
        → after ≡ before)

-- A spec that differs from another in the replicas of prefill and decode alone, as requested.
pub record IsScaled (req : UpdateRequest) (before after : PdInferenceServiceSpec) : Type 0 where
  pub prefill_count : ℤ
  pub decode_count : ℤ
  pub prefill : Replicas req.prefill before.prefill.replicas prefill_count
  pub decode : Replicas req.decode before.decode.replicas decode_count
  pub spec :
      let prefill : InferenceRoleSpec = record (before.prefill) { replicas = prefill_count } in
      let decode : InferenceRoleSpec = record (before.decode) { replicas = decode_count } in
      after ≡ record before { prefill = prefill; decode = decode }

requested_replicas-Replicas :
    (asked : Option RoleUpdate) (before : ℤ)
    → Replicas asked before (requested_replicas asked before)
requested_replicas-Replicas none before = (λ u n h. cc, λ _. refl)
requested_replicas-Replicas (some u) before = elim (Option-cases u.replicas) [
  | inl absent ↦ (λ v n h e. ground arith, λ _. rw absent refl)
  | inr (n, present) ↦ (λ v m h e. ground arith, λ h. ground arith)
]

scale-IsScaled :
    (req : UpdateRequest) (pdis : PdInferenceService) → IsScaled req pdis.spec (scale req pdis).spec
unfolding scale
scale-IsScaled req pdis = record {
  prefill_count = _;
  decode_count = _;
  prefill = requested_replicas-Replicas req.prefill pdis.spec.prefill.replicas;
  decode = requested_replicas-Replicas req.decode pdis.spec.decode.replicas;
  spec = refl;
}

read_error-status : (e : Error) → (read_error e).status ≢ 200
read_error-status e = elim (Bool-cases (is_not_found e)) [
  | inl missing ↦ rw missing (λ h. omega arith)
  | inr failing ↦ rw failing (λ h. omega arith)
]

module _ (b : Backend) (laws : BackendLaws b) (name : String) (req : UpdateRequest)
    (w : b.World) where
  -- What a PUT leaves that is answered with 200.
  abbrev pub Scales : Response × b.World → Type 0
  Scales answer =
      (old after : PdInferenceService) × (asked : PdInferenceServiceSpec) × (laws.stored
          (default_key name) w
        ≡ some old)
      × (laws.stored (default_key name) answer.1 ≡ some after)
      × IsScaled req old.spec asked
      × (after ≡ record old { spec = laws.admit asked })

  update_on-Scales :
      (found : Result PdInferenceService)
      → b.get_service (default_key name) w ≡ found
      → (update_on b req found w).0.status ≡ 200
      → Scales (update_on b req found w)
  unfolding scale
  update_on-Scales (err e) read done = absurd (read_error-status e done)
  update_on-Scales (ok old) read done = elim (Result-cases (b.update_service (scale req old) w).0) [
    | inl (after, accepted) ↦
        let key = laws.get_key (default_key name) w old read in
        let (held, same) =
          laws.update_stores (scale req old) old after w
            (ap (λ k. laws.stored k w) key ∙ laws.get_stored (default_key name) w old read)
            accepted in
        (
          old,
          after,
          (scale req old).spec,
          laws.get_stored (default_key name) w old read,
          ap (λ k. laws.stored k (b.update_service (scale req old) w).1) (sym key) ∙ held,
          scale-IsScaled req old,
          same,
        )
    | inr (e, refused) ↦ absurd (ground arith)
  ]

bad_request-ne-ok : (http_error "" 400).status ≢ 200
bad_request-ne-ok h = omega arith

-- A PUT that is answered with 200 found the service in the namespace "default", asked for no model,
-- and left it with the same metadata and status, and with the spec that mutating admission makes of
-- the old one with the requested replicas of prefill and decode and no other change.
pub update-Scales :
    (b : Backend) (laws : BackendLaws b) (name : String) (body : Result UpdateRequest) (w : b.World)
    → (update b name body w).0.status ≡ 200
    → (req : UpdateRequest) × (body ≡ ok req)
      × (req.model ≡ "")
      × Scales b laws name req w (update b name body w)
unfolding update
update-Scales b laws name (err e) w done = absurd (omega arith)
update-Scales b laws name (ok req) w done = elim (String-cases req.model "") [
  | inl (unset, t) ↦ rw t (
    req,
    refl,
    unset,
    update_on-Scales b laws name req w (b.get_service (default_key name) w) refl (rw t at done),
  )
  | inr (set, t) ↦ absurd (bad_request-ne-ok (rw t at done))
]

-- The request is refused before anything is written.
abbrev pub IsRefused : Response → Type 0
IsRefused answer = (answer.status ≡ 400) ⊎ (answer.status ≡ 404)

done_unrefused : ¬ IsRefused ok_header
done_unrefused h = omega arith

failed_unrefused : (e : Error) → ¬ IsRefused (server_error e)
failed_unrefused e h = omega arith

module _ (b : Backend) (laws : BackendLaws b) (name : String) (req : UpdateRequest)
    (w : b.World) where
  update_on-others :
      (found : Result PdInferenceService) (k : NamespacedName)
      → b.get_service (default_key name) w ≡ found
      → (k ≢ default_key name) ⊎ IsRefused (update_on b req found w).0
      → laws.stored k (update_on b req found w).1 ≡ laws.stored k w
  unfolding scale
  update_on-others (err e) k read h = refl
  update_on-others (ok old) k read (inl other) =
      laws.update_others (scale req old) w k
        (λ e. other (e ∙ laws.get_key (default_key name) w old read))
  update_on-others (ok old) k read (inr refusal) =
      elim (Result-cases (b.update_service (scale req old) w).0) [
        | inl (after, accepted) ↦ absurd (done_unrefused (rw accepted at refusal))
        | inr (e, failed) ↦ absurd (failed_unrefused e (rw failed at refusal))
      ]

-- A PUT touches no service but the one of its name in the namespace "default", and not that one
-- either if it is answered with 400 or 404.
pub update-others :
    (b : Backend) (laws : BackendLaws b) (name : String) (body : Result UpdateRequest) (w : b.World)
    (k : NamespacedName)
    → (k ≢ default_key name) ⊎ IsRefused (update b name body w).0
    → laws.stored k (update b name body w).1 ≡ laws.stored k w
unfolding update
update-others b laws name (err e) w k h = refl
update-others b laws name (ok req) w k h = elim (String-cases req.model "") [
  | inl (unset, t) ↦
      rw t
        (update_on-others b laws name req w (b.get_service (default_key name) w) k refl (rw t at h))
  | inr (set, t) ↦ rw t refl
]
