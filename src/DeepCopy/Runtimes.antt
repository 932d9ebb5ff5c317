-- ===== src/DeepCopy/Runtimes.antt =====
-- The deep copies of the engine runtimes.
use pd_manager.Common.{String, ◌++◌, refl}
use pd_manager.Api.{EngineRuntime, RoleEngineRuntimes, RuntimeContainer}
use pd_manager.DeepCopy.Alloc.{
  Slice, Ptr, Alloc, pure, ◌>>=◌, copy_ptr, copy_slice, copy_flat_slice,
}
use pd_manager.DeepCopy.Views.{
  View, IsDeep, slice, flat_slice, Fills-append, slice-IsDeep, flat_slice-IsDeep,
}
use pd_manager.DeepCopy.Library.{Library, LibraryLaws}

pub record GoRuntimeContainer (l : Library) : Type 0 where
  pub name : String
  pub args : Slice String
  pub env : Slice l.EnvVarObj

pub record GoEngineRuntime (l : Library) : Type 0 where
  pub profile_name : String
  pub containers : Slice (GoRuntimeContainer l)

pub record GoRoleEngineRuntimes (l : Library) : Type 0 where
  pub router : Slice (GoEngineRuntime l)
  pub prefill : Slice (GoEngineRuntime l)
  pub decode : Slice (GoEngineRuntime l)

module _ (l : Library) where
  abbrev runtime_container_view : View (GoRuntimeContainer l) RuntimeContainer
  runtime_container_view = record {
    value = λ x. record {
      name = x.name;
      args = flat_slice.value x.args;
      env = (slice l.env_var).value x.env;
    };
    refs = λ x. flat_slice.refs x.args ++ ((slice l.env_var).refs x.env);
  }

  unfoldable pub runtime_container_deep_copy_into :
      GoRuntimeContainer l → Alloc (GoRuntimeContainer l)
  runtime_container_deep_copy_into x = do
    args ← copy_flat_slice x.args
    env ← copy_slice l.copy_env_var x.env
    pure (record x { args = args; env = env })

  abbrev runtime_container_deep_copy :
      Ptr (GoRuntimeContainer l) → Alloc (Ptr (GoRuntimeContainer l))
  runtime_container_deep_copy = copy_ptr runtime_container_deep_copy_into

  abbrev pub engine_runtime_view : View (GoEngineRuntime l) EngineRuntime
  engine_runtime_view = record {
    value = λ x. record {
      profile_name = x.profile_name;
      containers = (slice runtime_container_view).value x.containers;
    };
    refs = λ x. (slice runtime_container_view).refs x.containers;
  }

  unfoldable pub engine_runtime_deep_copy_into : GoEngineRuntime l → Alloc (GoEngineRuntime l)
  engine_runtime_deep_copy_into x = do
    containers ← copy_slice runtime_container_deep_copy_into x.containers
    pure (record x { containers = containers })

  abbrev engine_runtime_deep_copy : Ptr (GoEngineRuntime l) → Alloc (Ptr (GoEngineRuntime l))
  engine_runtime_deep_copy = copy_ptr engine_runtime_deep_copy_into

  abbrev pub role_engine_runtimes_view : View (GoRoleEngineRuntimes l) RoleEngineRuntimes
  role_engine_runtimes_view = record {
    value = λ x. record {
      router = (slice engine_runtime_view).value x.router;
      prefill = (slice engine_runtime_view).value x.prefill;
      decode = (slice engine_runtime_view).value x.decode;
    };
    refs = λ x.
        (slice engine_runtime_view).refs x.router
        ++ ((slice engine_runtime_view).refs x.prefill
            ++ ((slice engine_runtime_view).refs x.decode));
  }

  unfoldable pub role_engine_runtimes_deep_copy_into :
      GoRoleEngineRuntimes l → Alloc (GoRoleEngineRuntimes l)
  role_engine_runtimes_deep_copy_into x = do
    router ← copy_slice engine_runtime_deep_copy_into x.router
    prefill ← copy_slice engine_runtime_deep_copy_into x.prefill
    decode ← copy_slice engine_runtime_deep_copy_into x.decode
    pure (record x { router = router; prefill = prefill; decode = decode })

  abbrev role_engine_runtimes_deep_copy :
      Ptr (GoRoleEngineRuntimes l) → Alloc (Ptr (GoRoleEngineRuntimes l))
  role_engine_runtimes_deep_copy = copy_ptr role_engine_runtimes_deep_copy_into

module _ (l : Library) (laws : LibraryLaws l) where
  runtime_container_deep_copy_into-IsDeep :
      IsDeep (runtime_container_view l) (runtime_container_deep_copy_into l)
  unfolding runtime_container_deep_copy_into
  runtime_container_deep_copy_into-IsDeep =
      let args = flat_slice-IsDeep {A = String} in
      let env = slice-IsDeep laws.env_var-IsDeep in
      record {
        same = λ x _. rw (args.same x.args _, env.same x.env _) refl;
        fills = λ x _. Fills-append _ _ _ _ _ (args.fills x.args _) (env.fills x.env _);
      }

  pub engine_runtime_deep_copy_into-IsDeep :
      IsDeep (engine_runtime_view l) (engine_runtime_deep_copy_into l)
  unfolding engine_runtime_deep_copy_into
  engine_runtime_deep_copy_into-IsDeep =
      let containers = slice-IsDeep runtime_container_deep_copy_into-IsDeep in
      record {
        same = λ x _. rw (containers.same x.containers _) refl;
        fills = λ x _. containers.fills x.containers _;
      }

  pub role_engine_runtimes_deep_copy_into-IsDeep :
      IsDeep (role_engine_runtimes_view l) (role_engine_runtimes_deep_copy_into l)
  unfolding role_engine_runtimes_deep_copy_into
  role_engine_runtimes_deep_copy_into-IsDeep =
      let router = slice-IsDeep engine_runtime_deep_copy_into-IsDeep in
      record {
        same = λ x _.
            rw (router.same x.router _, router.same x.prefill _, router.same x.decode _) refl;
        fills = λ x _.
            Fills-append _ _ _ _ _ (router.fills x.router _)
              (Fills-append _ _ _ _ _ (router.fills x.prefill _) (router.fills x.decode _));
      }
