-- ===== src/DeepCopy/Profiles.antt =====
-- The deep copies of `PDEngineProfile` and of a list of them. The function of the spec has no line
-- for `RoleCommands`, so `*out = *in` leaves that pointer shared.
use pd_manager.Common.{ℕ, String, Option, List, [], ◌++◌, ◌≡◌, refl}
use pd_manager.Api.{RoleImages, RoleCommands, PdEngineProfileSpec, PdEngineProfile}
use pd_manager.DeepCopy.Alloc.{Slice, Ptr, Alloc, pure, ◌>>=◌, copy_ptr, copy_slice}
use pd_manager.DeepCopy.Views.{
  View, IsDeep, ptr, slice, flat_slice, Fills-append, ptr-IsDeep, slice-IsDeep,
}
use pd_manager.DeepCopy.Library.{Library, LibraryLaws, TypeMeta, ListMeta}
use pd_manager.DeepCopy.Flat.{PdEngineProfileStatus}
use pd_manager.DeepCopy.Runtimes.{
  GoRoleEngineRuntimes, role_engine_runtimes_view, role_engine_runtimes_deep_copy_into,
  role_engine_runtimes_deep_copy_into-IsDeep,
}
use pd_manager.DeepCopy.Defaults.{
  GoRoleArgs, role_args_view, role_args_deep_copy_into, role_args_deep_copy_into-IsDeep,
  GoApplicabilitySpec, applicability_spec_view, applicability_spec_deep_copy_into,
  applicability_spec_deep_copy_into-IsDeep,
}

pub record GoRoleCommands : Type 0 where
  pub router : Slice String
  pub prefill : Slice String
  pub decode : Slice String

pub record GoPdEngineProfileSpec (l : Library) : Type 0 where
  pub description : String
  pub applicability : Ptr GoApplicabilitySpec
  pub images : RoleImages
  pub role_commands : Ptr GoRoleCommands
  pub role_args : Ptr GoRoleArgs
  pub engine_runtimes : Ptr (GoRoleEngineRuntimes l)

pub record GoPdEngineProfile (l : Library) : Type 0 where
  pub type_meta : TypeMeta
  pub metadata : l.ObjectMetaObj
  pub spec : GoPdEngineProfileSpec l
  pub status : PdEngineProfileStatus

pub record GoPdEngineProfileList (l : Library) : Type 0 where
  pub type_meta : TypeMeta
  pub metadata : l.ListMetaObj
  pub items : Slice (GoPdEngineProfile l)

abbrev role_commands_view : View GoRoleCommands RoleCommands
role_commands_view = record {
  value = λ x. record {
    router = flat_slice.value x.router;
    prefill = flat_slice.value x.prefill;
    decode = flat_slice.value x.decode;
  };
  refs = λ x. flat_slice.refs x.router ++ (flat_slice.refs x.prefill ++ flat_slice.refs x.decode);
}

-- The role commands read as they are, with the addresses of their memory or without.
abbrev pub all_commands : View (Ptr GoRoleCommands) (Option RoleCommands)
all_commands = ptr role_commands_view

abbrev pub no_commands : View (Ptr GoRoleCommands) (Option RoleCommands)
no_commands = record { value = all_commands.value; refs = λ _. [] }

module _ (l : Library) where
  module _ (commands : View (Ptr GoRoleCommands) (Option RoleCommands)) where
    abbrev engine_profile_spec_view : View (GoPdEngineProfileSpec l) PdEngineProfileSpec
    engine_profile_spec_view = record {
      value = λ x. record {
        description = x.description;
        applicability = (ptr applicability_spec_view).value x.applicability;
        images = x.images;
        role_commands = commands.value x.role_commands;
        role_args = (ptr role_args_view).value x.role_args;
        engine_runtimes = (ptr (role_engine_runtimes_view l)).value x.engine_runtimes;
      };
      refs = λ x.
          (ptr applicability_spec_view).refs x.applicability
          ++ (commands.refs x.role_commands
              ++ ((ptr role_args_view).refs x.role_args
                  ++ (ptr (role_engine_runtimes_view l)).refs x.engine_runtimes));
    }

    abbrev pub engine_profile_view : View (GoPdEngineProfile l) (TypeMeta × PdEngineProfile)
    engine_profile_view = record {
      value = λ x. (
        x.type_meta,
        record {
          metadata = l.object_meta.value x.metadata;
          spec = engine_profile_spec_view.value x.spec;
        },
      );
      refs = λ x. l.object_meta.refs x.metadata ++ engine_profile_spec_view.refs x.spec;
    }

    abbrev engine_profile_list_view :
        View (GoPdEngineProfileList l) (TypeMeta × ListMeta × List (TypeMeta × PdEngineProfile))
    engine_profile_list_view = record {
      value = λ x.
          (x.type_meta, l.list_meta.value x.metadata, (slice engine_profile_view).value x.items);
      refs = λ x. l.list_meta.refs x.metadata ++ (slice engine_profile_view).refs x.items;
    }

  unfoldable pub engine_profile_spec_deep_copy_into :
      GoPdEngineProfileSpec l → Alloc (GoPdEngineProfileSpec l)
  engine_profile_spec_deep_copy_into x = do
    applicability ← copy_ptr applicability_spec_deep_copy_into x.applicability
    role_args ← copy_ptr role_args_deep_copy_into x.role_args
    engine_runtimes ← copy_ptr (role_engine_runtimes_deep_copy_into l) x.engine_runtimes
    pure (record x {
      applicability = applicability;
      images = x.images;
      role_args = role_args;
      engine_runtimes = engine_runtimes;
    })

  abbrev engine_profile_spec_deep_copy :
      Ptr (GoPdEngineProfileSpec l) → Alloc (Ptr (GoPdEngineProfileSpec l))
  engine_profile_spec_deep_copy = copy_ptr engine_profile_spec_deep_copy_into

  unfoldable pub engine_profile_deep_copy_into : GoPdEngineProfile l → Alloc (GoPdEngineProfile l)
  engine_profile_deep_copy_into x = do
    metadata ← l.copy_object_meta x.metadata
    spec ← engine_profile_spec_deep_copy_into x.spec
    pure (record x { type_meta = x.type_meta; metadata = metadata; spec = spec; status = x.status })

  abbrev pub engine_profile_deep_copy :
      Ptr (GoPdEngineProfile l) → Alloc (Ptr (GoPdEngineProfile l))
  engine_profile_deep_copy = copy_ptr engine_profile_deep_copy_into

  unfoldable pub engine_profile_list_deep_copy_into :
      GoPdEngineProfileList l → Alloc (GoPdEngineProfileList l)
  engine_profile_list_deep_copy_into x = do
    metadata ← l.copy_list_meta x.metadata
    items ← copy_slice engine_profile_deep_copy_into x.items
    pure (record x { type_meta = x.type_meta; metadata = metadata; items = items })

  abbrev pub engine_profile_list_deep_copy :
      Ptr (GoPdEngineProfileList l) → Alloc (Ptr (GoPdEngineProfileList l))
  engine_profile_list_deep_copy = copy_ptr engine_profile_list_deep_copy_into

module _ (l : Library) (laws : LibraryLaws l) where
  engine_profile_spec_deep_copy_into-IsDeep :
      IsDeep (engine_profile_spec_view l no_commands) (engine_profile_spec_deep_copy_into l)
  unfolding engine_profile_spec_deep_copy_into
  engine_profile_spec_deep_copy_into-IsDeep =
      let applicability = ptr-IsDeep applicability_spec_deep_copy_into-IsDeep in
      let args = ptr-IsDeep role_args_deep_copy_into-IsDeep in
      let runtimes = ptr-IsDeep (role_engine_runtimes_deep_copy_into-IsDeep l laws) in
      record {
        same = λ x _.
            rw
              (
                applicability.same x.applicability _,
                args.same x.role_args _,
                runtimes.same x.engine_runtimes _,
              )
              refl;
        fills = λ x _. Fills-append _ _ _ _ _ (applicability.fills x.applicability _) (
            Fills-append _ _ _ _ _ (args.fills x.role_args _) (runtimes.fills x.engine_runtimes _));
      }

  pub engine_profile_deep_copy_into-IsDeep :
      IsDeep (engine_profile_view l no_commands) (engine_profile_deep_copy_into l)
  unfolding engine_profile_deep_copy_into
  engine_profile_deep_copy_into-IsDeep =
      let metadata = laws.object_meta-IsDeep in
      let spec = engine_profile_spec_deep_copy_into-IsDeep in
      record {
        same = λ x _. rw (metadata.same x.metadata _, spec.same x.spec _) refl;
        fills = λ x _. Fills-append _ _ _ _ _ (metadata.fills x.metadata _) (spec.fills x.spec _);
      }

  engine_profile_list_deep_copy_into-IsDeep :
      IsDeep (engine_profile_list_view l no_commands) (engine_profile_list_deep_copy_into l)
  unfolding engine_profile_list_deep_copy_into
  engine_profile_list_deep_copy_into-IsDeep =
      let metadata = laws.list_meta-IsDeep in
      let items = slice-IsDeep engine_profile_deep_copy_into-IsDeep in
      record {
        same = λ x _. rw (metadata.same x.metadata _, items.same x.items _) refl;
        fills = λ x _. Fills-append _ _ _ _ _ (metadata.fills x.metadata _) (items.fills x.items _);
      }

  pub engine_profile_deep_copy_into-role_commands :
      (x : GoPdEngineProfile l) (next : ℕ)
      → (engine_profile_deep_copy_into l x next).0.spec.role_commands ≡ x.spec.role_commands
  unfolding engine_profile_deep_copy_into engine_profile_spec_deep_copy_into
  engine_profile_deep_copy_into-role_commands x next = refl
