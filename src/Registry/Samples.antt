-- ===== src/Registry/Samples.antt =====
-- A registry of two executors.
use durable_threads.Providers.{capability}
use durable_threads.Errors.{value_error}
use durable_threads.Providers.Invocation.{
  provider_status, get_capabilities, get_adapter, adapter_named, capability_status, first_found,
}
use durable_threads.Registry.Shadows.{IsLoaded, default_execution_registry-IsLoaded}
use durable_threads.Registry.Builtin.{
  BuiltinBackend, cli_backend, default_execution_registry, builtin_registry, load_entry_points,
  register_builtins, checked_plugin, scripted_executor_plugin, builtin_descriptor, builtin_backend,
  builtin_availability, first_available,
}
use durable_threads.Prelude.{
  Text, codes, lit, ◌==◌, text_ltb, contains, nonblank, true, false, none, some, [], ◌∷◌, ◌≡◌, refl,
  pos, ok, all, ok_or, err, if◌then◌else◌, map, Option, Bool, lower,
}
use durable_threads.Dict.{Dict, get, put, has}
use durable_threads.Regex.{fullmatch}
use durable_threads.Registry.{
  ExecutorDescriptor, ExecutorPlugin, ExecutionRequirements, selection_of, preferred_weight, misses,
  is_before, insert, sorted, register, get_plugin, available, suitable, candidates, rank_plugins,
  select, executor_id_pattern, check_descriptor,
}
use durable_threads.Registry.Selection.{IsBest, select-IsBest}

unfoldable pub registry : Unit {0}
unfolding selection_of preferred_weight misses is_before insert sorted register get_plugin available
    suitable candidates rank_plugins select lit ◌==◌ text_ltb contains all get put has
registry = tt

abbrev descriptor : Text → Text → ExecutorDescriptor
descriptor id provider = record {
  executor_id = id;
  provider = provider;
  runtime = codes "cli";
  capabilities = codes "code" ∷ codes "git" ∷ [];
  persistent_sessions = true;
  headless = true;
  structured_output = false;
  supports_effort = true;
  metadata = [];
}

abbrev plugin : Text → Text → ExecutorPlugin (Unit {0})
plugin id provider = record {
  descriptor = descriptor id provider;
  backend_factory = some tt;
  availability_probe = some true;
}

abbrev plugins : Dict (ExecutorPlugin (Unit {0}))
plugins =
    (codes "claude", plugin (codes "claude") (codes "claude"))
    ∷ (codes "codex", plugin (codes "codex") (codes "codex"))
    ∷ []

abbrev requirements : ExecutionRequirements
requirements = record {
  capabilities = codes "code" ∷ [];
  headless = true;
  persistent_session = false;
  structured_output = false;
  effort_control = false;
  preferred_providers = codes "codex" ∷ [];
  excluded_providers = [];
}

valid_descriptor :
    check_descriptor (descriptor (codes "claude-code") (codes "claude"))
    ≡ ok (descriptor (codes "claude-code") (codes "claude"))
unfolding check_descriptor executor_id_pattern fullmatch nonblank
valid_descriptor = refl

best_one :
    select requirements true plugins (pos 1)
    ≡ ok (selection_of requirements (descriptor (codes "codex") (codes "codex")) ∷ [])
unfolding registry
best_one = refl

select-IsBest_example :
    IsBest requirements true plugins
      (pos 1)
      (selection_of requirements (descriptor (codes "codex") (codes "codex")) ∷ [])
select-IsBest_example =
    select-IsBest requirements true plugins (pos 1)
      (selection_of requirements (descriptor (codes "codex") (codes "codex")) ∷ []) best_one

unfoldable built_in : Unit {0}
unfolding default_execution_registry builtin_registry load_entry_points register_builtins
    checked_plugin check_descriptor scripted_executor_plugin builtin_descriptor builtin_backend
    builtin_availability first_available provider_status get_capabilities fullmatch nonblank
    executor_id_pattern capability
built_in = tt

-- The default registry with one entry point, where `claude` is found as an executable.
abbrev find_claude : Text → Option Text
find_claude [] = none
find_claude (c ∷ t) = if (c ∷ t) == codes "claude" then some (codes "/usr/bin/claude") else none

abbrev acme : ExecutorPlugin BuiltinBackend
acme = record {
  descriptor = descriptor (codes "acme") (codes "codex");
  backend_factory = some (cli_backend (codes "codex"));
  availability_probe = none;
}

abbrev loaded : Dict (ExecutorPlugin BuiltinBackend)
loaded = ok_or (default_execution_registry find_claude false (some acme ∷ [])) []

made : default_execution_registry find_claude false (some acme ∷ []) ≡ ok loaded
unfolding registry built_in
made = refl

abbrev probe_of : Text × ExecutorPlugin BuiltinBackend → Text × Option Bool
probe_of (id, p) = (id, p.availability_probe)

-- The probes of the registry: the scripted executor is off, codex counts as there, claude is found.
probes :
    map probe_of loaded
    ≡ (codes "scripted", some false)
      ∷ (codes "codex", some true)
      ∷ (codes "claude", some true)
      ∷ (codes "grok", some false)
      ∷ (codes "cursor", some false)
      ∷ (codes "acme", none)
      ∷ []
unfolding registry built_in get_adapter adapter_named lower capability_status first_found
probes = refl

-- A second plugin for the id of a provider is refused.
shadowed :
    default_execution_registry find_claude false (
      some (record {
        descriptor = descriptor (codes "claude") (codes "codex");
        backend_factory = none;
        availability_probe = none;
      })
      ∷ [])
    ≡ err (value_error "executor already registered")
unfolding registry built_in
shadowed = refl

default_execution_registry-IsLoaded_example :
    (plugins : Dict (ExecutorPlugin BuiltinBackend)) × (builtin_registry find_claude false
      ≡ ok plugins)
    × IsLoaded (some acme ∷ []) plugins loaded
default_execution_registry-IsLoaded_example =
    default_execution_registry-IsLoaded find_claude false (some acme ∷ []) loaded made
