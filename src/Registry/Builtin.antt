-- ===== src/Registry/Builtin.antt =====
-- The default registry of src/durable_threads/execution.py: the scripted executor of scripted.py, one
-- executor for each provider, and those that entry points name. `find` is the search for an
-- executable, and `scripted` is whether the variable DURABLE_THREADS_ENABLE_SCRIPTED is 1.
use durable_threads.Prelude.{
  Text, lit, Bool, true, false, Option, none, some, List, [], ◌∷◌, ◌++◌, ok, err, ◌>>=◌,
  if◌then◌else◌,
}
use durable_threads.Errors.{Res, type_error}
use durable_threads.Dict.{Dict}
use durable_threads.Providers.{ProviderCapability}
use durable_threads.Providers.Invocation.{ProviderStatus, provider_status, get_capabilities}
use durable_threads.Registry.{ExecutorDescriptor, ExecutorPlugin, check_descriptor, register}

-- What a backend factory makes: the scripted backend, or CliExecutionBackend of a provider.
pub data BuiltinBackend : Type 0 where
  scripted_backend : BuiltinBackend
  cli_backend : Text → BuiltinBackend

-- `ExecutorPlugin(...)`, whose descriptor is checked when it is made.
unfoldable pub checked_plugin :
    ExecutorDescriptor → Option BuiltinBackend → Bool → Res (ExecutorPlugin BuiltinBackend)
unfolding check_descriptor
checked_plugin descriptor factory probe = do
  checked ← check_descriptor descriptor
  ok (record { descriptor = checked; backend_factory = factory; availability_probe = some probe })

-- scripted_executor_plugin.
unfoldable pub scripted_executor_plugin : Bool → Res (ExecutorPlugin BuiltinBackend)
unfolding checked_plugin lit
scripted_executor_plugin enabled =
    checked_plugin
      (record {
        executor_id = lit "scripted";
        provider = lit "scripted";
        runtime = lit "Scripted test executor";
        capabilities =
            lit "code" ∷ lit "filesystem" ∷ lit "git" ∷ lit "shell" ∷ lit "structured-output" ∷ [];
        headless = true;
        structured_output = true;
        persistent_sessions = false;
        supports_effort = true;
        metadata = (lit "protocol", lit "scripted") ∷ [];
      })
      (some scripted_backend) enabled

abbrev given : Bool → Text → List Text
given true name = name ∷ []
given false name = []

unfoldable pub builtin_descriptor : ProviderCapability → ExecutorDescriptor
unfolding lit
builtin_descriptor c = record {
  executor_id = c.provider;
  provider = c.provider;
  runtime = c.display_name;
  capabilities =
      lit "code"
      ∷ lit "filesystem"
      ∷ lit "git"
      ∷ (given c.headless (lit "shell") ++ given c.structured_output (lit "structured-output"));
  persistent_sessions = c.persistent_sessions;
  headless = c.headless;
  structured_output = c.structured_output;
  supports_effort = c.supports_effort;
  metadata = (lit "protocol", c.protocol) ∷ [];
}

-- `_builtin_backend_factory`, for a provider that runs headless.
unfoldable pub builtin_backend : ProviderCapability → Option BuiltinBackend
builtin_backend c = if c.headless then some (cli_backend c.provider) else none

-- The first status, and False where there is none or its reading raises.
unfoldable pub first_available : Res (List ProviderStatus) → Bool
first_available (ok (s ∷ ss)) = s.available
first_available (ok []) = false
first_available (err e) = false

module _ (find : Text → Option Text) where
  -- `_builtin_availability`. The search itself does not raise.
  unfoldable pub builtin_availability : Text → Bool
  unfolding first_available provider_status
  builtin_availability provider = first_available (provider_status find (some provider))

  unfoldable pub register_builtins :
      List ProviderCapability
      → Dict (ExecutorPlugin BuiltinBackend)
      → Res (Dict (ExecutorPlugin BuiltinBackend))
  unfolding checked_plugin builtin_descriptor builtin_backend builtin_availability register
  register_builtins [] plugins = ok plugins
  register_builtins (c ∷ cs) plugins = do
    plugin ←
        checked_plugin (builtin_descriptor c) (builtin_backend c) (builtin_availability c.provider)
    added ← register plugin false plugins
    register_builtins cs added

-- ExecutionRegistry.load_entry_points, with what each entry point gives: a plugin, or something else.
unfoldable pub load_entry_points :
    List (Option (ExecutorPlugin BuiltinBackend))
    → Dict (ExecutorPlugin BuiltinBackend)
    → Res (Dict (ExecutorPlugin BuiltinBackend))
unfolding register
load_entry_points [] plugins = ok plugins
load_entry_points (none ∷ entries) plugins =
    err (type_error "entry point must return durable_threads.execution.ExecutorPlugin")
load_entry_points (some plugin ∷ entries) plugins = do
  added ← register plugin false plugins
  load_entry_points entries added

module _ (find : Text → Option Text) (scripted : Bool) where
  -- The registry before entry points are loaded.
  unfoldable pub builtin_registry : Res (Dict (ExecutorPlugin BuiltinBackend))
  unfolding scripted_executor_plugin register get_capabilities register_builtins
  builtin_registry = do
    plugin ← scripted_executor_plugin scripted
    started ← register plugin false []
    capabilities ← get_capabilities none
    register_builtins find capabilities started

  -- `default_execution_registry`, with the entry points that are loaded.
  unfoldable pub default_execution_registry :
      List (Option (ExecutorPlugin BuiltinBackend)) → Res (Dict (ExecutorPlugin BuiltinBackend))
  unfolding builtin_registry load_entry_points
  default_execution_registry entries = do
    plugins ← builtin_registry
    load_entry_points entries plugins
