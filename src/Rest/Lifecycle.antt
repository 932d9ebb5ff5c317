-- ===== src/Rest/Lifecycle.antt =====
-- Creation and deletion by the REST API.
use mathlib.Core.Path.{subst}
use pd_manager.Common.{
  ◌≡◌, ◌≢◌, ◌⊎◌, inl, inr, String, false, Option, none, some, Result, ok, err, Error, is_not_found,
  refl, sym, ap, ◌∙◌, arith, eq_iff, Bool-cases, Result-cases, String-cases,
}
use pd_manager.Api.{is_zero, NamespacedName, PdInferenceService}
use pd_manager.Cluster.{service_key}
use pd_manager.Rest.{
  Response, Backend, BackendLaws, default_namespace, default_key, with_namespace, create,
  create_decoded, get, delete, delete_on, server_error, json, json_service,
}

-- A direct read finds what is stored.
abbrev pub Finds : (b : Backend) → BackendLaws b → Type 0
Finds b laws =
    (k : NamespacedName) (w : b.World) (s : PdInferenceService)
    → laws.stored k w ≡ some s
    → b.get_service k w ≡ ok s

get_found :
    (b : Backend) (name : String) (w : b.World) (s : PdInferenceService)
    → b.get_service (default_key name) w ≡ ok s
    → (get b name w).0 ≡ json 200 (json_service s)
unfolding get
get_found b name w s found = rw found refl

-- The object that a POST sends.
abbrev sent_service : PdInferenceService → PdInferenceService
sent_service pdis = record pdis { metadata = with_namespace pdis.metadata }

-- The namespace is "default", or not given.
abbrev IsDefaultNamespace : PdInferenceService → Type 0
IsDefaultNamespace pdis =
    (pdis.metadata.namespace ≡ "") ⊎ (pdis.metadata.namespace ≡ default_namespace)

sent_key-default :
    (pdis : PdInferenceService)
    → IsDefaultNamespace pdis
    → service_key (sent_service pdis) ≡ default_key pdis.metadata.name
sent_key-default pdis (inl unset) = ground (arith, eq_iff pdis.metadata.namespace "", unset)
sent_key-default pdis (inr named) = ground (arith, eq_iff pdis.metadata.namespace "", named)

sent_key-kept :
    (pdis : PdInferenceService)
    → pdis.metadata.namespace ≢ ""
    → service_key (sent_service pdis) ≡ service_key pdis
sent_key-kept pdis set = ground (arith, eq_iff pdis.metadata.namespace "", set)

IsDefaultNamespace-cases :
    (pdis : PdInferenceService)
    → IsDefaultNamespace pdis
      ⊎ ((¬ IsDefaultNamespace pdis) × (service_key (sent_service pdis) ≡ service_key pdis))
IsDefaultNamespace-cases pdis = elim (String-cases pdis.metadata.namespace "") [
  | inl (unset, _) ↦ inl (inl unset)
  | inr (set, _) ↦ elim (String-cases pdis.metadata.namespace default_namespace) [
    | inl (named, _) ↦ inl (inr named)
    | inr (other, _) ↦
        inr (
          (λ h. elim h [ inl unset ↦ set unset | inr named ↦ other named ]),
          sent_key-kept pdis set,
        )
  ]
]

module _ (b : Backend) (laws : BackendLaws b) (w : b.World) where
  -- What a POST leaves that is answered with 201.
  pub record IsCreated (pdis : PdInferenceService) (answer : Response × b.World) : Type 0 where
    pub created : PdInferenceService
    pub response : answer.0.body ≡ json_service created
    pub spec : created.spec ≡ laws.admit pdis.spec
    -- It is that of its name in a GET, or is stored elsewhere and what a GET of its name looks up
    -- is as before.
    pub placed :
        (IsDefaultNamespace pdis
          × ((get b pdis.metadata.name answer.1).0 ≡ json 200 (json_service created)))
        ⊎ ((¬ IsDefaultNamespace pdis)
            × (laws.stored (service_key pdis) answer.1 ≡ some created)
            × (laws.stored (default_key pdis.metadata.name) answer.1
                ≡ laws.stored (default_key pdis.metadata.name) w))

  create_decoded-IsCreated :
      Finds b laws
      → (pdis : PdInferenceService) → (create_decoded b pdis w).0.status ≡ 201
      → IsCreated pdis (create_decoded b pdis w)
  create_decoded-IsCreated finds pdis done =
      let sent = sent_service pdis in
      let after = (b.create_service sent w).1 in
      elim (Result-cases (b.create_service sent w).0) [
        | inr (e, refused) ↦ absurd (ground arith)
        | inl (created, accepted) ↦
            let (held, admitted) = laws.create_stores sent created w accepted in
            record {
              created = created;
              response = rw accepted refl;
              spec = admitted;
              placed = elim (IsDefaultNamespace-cases pdis) [
                | inl ns ↦ inl (
                  ns,
                  get_found b pdis.metadata.name after created (
                      finds (default_key pdis.metadata.name) after created
                        (ap (λ k. laws.stored k after) (sym (sent_key-default pdis ns)) ∙ held)),
                )
                | inr (other, kept) ↦ inr (
                  other,
                  ap (λ k. laws.stored k after) (sym kept) ∙ held,
                  laws.create_others sent w (default_key pdis.metadata.name)
                      (λ e. other (inr (sym (ap (λ k. k.namespace) (e ∙ kept))))),
                )
              ];
            }
      ]

-- A POST that is answered with 201 carried a service, created it with its admitted spec, and
-- returned it as created. If its namespace is "default" or not given, a GET of its name then
-- returns the same service, given that direct reads find what is stored; if it is another, the
-- service is stored in that namespace, where no GET looks, and what a GET of its name looks up is
-- as before.
pub create-IsCreated :
    (b : Backend) (laws : BackendLaws b) (body : Result PdInferenceService) (w : b.World)
    → Finds b laws
    → (create b body w).0.status ≡ 201
    → (pdis : PdInferenceService) × (body ≡ ok pdis) × IsCreated b laws w pdis (create b body w)
unfolding create
create-IsCreated b laws (err e) w finds done = absurd (omega arith)
create-IsCreated b laws (ok pdis) w finds done =
    (pdis, refl, create_decoded-IsCreated b laws w finds pdis done)

server_error-ne-ok : (e : Error) → (server_error e).status ≢ 200
server_error-ne-ok e h = omega arith

-- Gone, or marked for deletion.
abbrev pub IsGone : Option PdInferenceService → Type 0
IsGone found =
    (found ≡ none)
    ⊎ ((s : PdInferenceService) × (found ≡ some s)
        × (is_zero s.metadata.deletion_timestamp ≡ false))

module _ (b : Backend) (laws : BackendLaws b) (name : String) (w : b.World) where
  delete_on-IsGone :
      (found : Result PdInferenceService)
      → b.get_service (default_key name) w ≡ found
      → (delete_on b found w).0.status ≡ 200
      → IsGone (laws.stored (default_key name) (delete_on b found w).1)
  delete_on-IsGone (err e) read done = elim (Bool-cases (is_not_found e)) [
    | inl missing ↦ rw missing (inl (laws.get_missing (default_key name) w e read missing))
    | inr failing ↦ absurd (server_error-ne-ok e (rw failing at done))
  ]
  delete_on-IsGone (ok pdis) read done =
      let key = laws.get_key (default_key name) w pdis read in
      let after = (b.delete_service pdis w).1 in
      subst (λ k. IsGone (laws.stored k after)) key
        (elim (Result-cases (b.delete_service pdis w).0) [
          | inl (_, accepted) ↦ laws.delete_marks pdis w accepted
          | inr (e, refused) ↦ elim (Bool-cases (is_not_found e)) [
            | inl missing ↦ inl (laws.delete_missing pdis w e refused missing)
            | inr failing ↦ absurd (server_error-ne-ok e (rw (refused, failing) at done))
          ]
        ])

  delete_on-others :
      (found : Result PdInferenceService) (k : NamespacedName)
      → b.get_service (default_key name) w ≡ found
      → k ≢ default_key name
      → laws.stored k (delete_on b found w).1 ≡ laws.stored k w
  delete_on-others (err e) k read h = elim (Bool-cases (is_not_found e)) [
    | inl missing ↦ rw missing refl
    | inr failing ↦ rw failing refl
  ]
  delete_on-others (ok pdis) k read h =
      laws.delete_others pdis w k (λ e. h (e ∙ laws.get_key (default_key name) w pdis read))

-- A DELETE that is answered with 200 leaves the service of that name gone or marked for deletion,
-- whether or not it was there.
pub delete-IsGone :
    (b : Backend) (laws : BackendLaws b) (name : String) (w : b.World)
    → (delete b name w).0.status ≡ 200
    → IsGone (laws.stored (default_key name) (delete b name w).1)
unfolding delete
delete-IsGone b laws name w =
    delete_on-IsGone b laws name w (b.get_service (default_key name) w) refl

-- A DELETE touches no service but that of its name in the namespace "default", whatever its answer.
delete-others :
    (b : Backend) (laws : BackendLaws b) (name : String) (w : b.World) (k : NamespacedName)
    → k ≢ default_key name
    → laws.stored k (delete b name w).1 ≡ laws.stored k w
unfolding delete
delete-others b laws name w k =
    delete_on-others b laws name w (b.get_service (default_key name) w) k refl
