-- ===== src/Registry/Shadows.antt =====
-- Entry points cannot take the place of an executor that is registered.
use durable_threads.Prelude.{
  ◌∙◌, Text, Bool, true, false, ◌≡◌, refl, subst, Option, none, some, List, [], ◌∷◌, Memb, here,
  there, ok, >>=-eq-ok, ok-injective, arith, ◌==◌, if◌then◌else◌, ==_refl, ==_iff, or_raise,
}
use durable_threads.Errors.{execution_error}
use durable_threads.Dict.{Dict, get}
use durable_threads.Registry.{ExecutorPlugin, register, get_plugin}
use durable_threads.Registry.Builtin.{
  BuiltinBackend, load_entry_points, builtin_registry, default_execution_registry,
}
use durable_threads.Registry.Plugins.{get_plugin-register}

-- Every executor of the first registry is found in the second, as it was.
abbrev pub Extends :
    Dict (ExecutorPlugin BuiltinBackend) → Dict (ExecutorPlugin BuiltinBackend) → Type 0
Extends plugins plugins' =
    (executor_id : Text) (p : ExecutorPlugin BuiltinBackend)
    → get_plugin executor_id plugins ≡ ok p
    → get_plugin executor_id plugins' ≡ ok p

get_plugin-ok :
    (executor_id : Text) (plugins : Dict (ExecutorPlugin BuiltinBackend))
    (p : ExecutorPlugin BuiltinBackend)
    → get_plugin executor_id plugins ≡ ok p
    → get executor_id plugins ≡ some p
unfolding get_plugin
get_plugin-ok executor_id plugins p h = from (get executor_id plugins) h
  where
    from :
        (found : Option (ExecutorPlugin BuiltinBackend))
        → or_raise found (execution_error "executor not registered") ≡ ok p
        → found ≡ some p
    from none same = absurd (ground arith)
    from (some q) same = cc

register-Extends :
    (plugin : ExecutorPlugin BuiltinBackend)
    (plugins plugins' : Dict (ExecutorPlugin BuiltinBackend))
    → register plugin false plugins ≡ ok plugins'
    → Extends plugins plugins'
register-Extends plugin plugins plugins' h executor_id p found =
    let (now_found, before) = get_plugin-register plugin false plugins plugins' executor_id h in
    now_found ∙ other (plugin.descriptor.executor_id == executor_id) refl (before refl)
  where
    other :
        (b : Bool)
        → (plugin.descriptor.executor_id == executor_id) ≡ b
        → get plugin.descriptor.executor_id plugins ≡ none
        → (if b then ok plugin else get_plugin executor_id plugins) ≡ ok p
    other true e free =
        let here_too =
          subst (λ i. get i plugins ≡ none) ((==_iff plugin.descriptor.executor_id executor_id).0 e)
            free in
        let there_too = get_plugin-ok executor_id plugins p found in absurd (ground arith)
    other false e free = found

register-finds :
    (plugin : ExecutorPlugin BuiltinBackend)
    (plugins plugins' : Dict (ExecutorPlugin BuiltinBackend))
    → register plugin false plugins ≡ ok plugins'
    → get_plugin plugin.descriptor.executor_id plugins' ≡ ok plugin
register-finds plugin plugins plugins' h =
    let (now_found, _) =
      get_plugin-register plugin false plugins plugins' plugin.descriptor.executor_id h in
    now_found
    ∙ own (plugin.descriptor.executor_id == plugin.descriptor.executor_id)
        (==_refl plugin.descriptor.executor_id)
  where
    own :
        (b : Bool)
        → b ≡ true
        → (if b then ok plugin else get_plugin plugin.descriptor.executor_id plugins) ≡ ok plugin
    own true e = refl
    own false e = absurd (ground arith)

-- What the loop over the entry points leaves.
pub record IsLoaded (entries : List (Option (ExecutorPlugin BuiltinBackend)))
    (plugins plugins' : Dict (ExecutorPlugin BuiltinBackend)) : Type 0 where
  pub keeps : Extends plugins plugins'
  pub finds :
      (entry : Option (ExecutorPlugin BuiltinBackend))
      → Memb entry entries
      → (p : ExecutorPlugin BuiltinBackend) × (entry ≡ some p)
        × (get_plugin p.descriptor.executor_id plugins' ≡ ok p)

load_entry_points-IsLoaded :
    (entries : List (Option (ExecutorPlugin BuiltinBackend)))
    (plugins plugins' : Dict (ExecutorPlugin BuiltinBackend))
    → load_entry_points entries plugins ≡ ok plugins'
    → IsLoaded entries plugins plugins'
unfolding load_entry_points
load_entry_points-IsLoaded [] plugins plugins' h = record {
  keeps = λ i p found. subst (λ ps. get_plugin i ps ≡ ok p) (ok-injective h) found;
  finds = λ entry m. elim m [ ];
}
load_entry_points-IsLoaded (none ∷ entries) plugins plugins' h = absurd (ground arith)
load_entry_points-IsLoaded (some plugin ∷ entries) plugins plugins' h =
    let (added, e, rest) = >>=-eq-ok (register plugin false plugins) _ h in
    let loaded = load_entry_points-IsLoaded entries added plugins' rest in
    record {
      keeps = λ i p found. loaded.keeps i p (register-Extends plugin plugins added e i p found);
      finds = λ entry m. place loaded (register-finds plugin plugins added e) entry m;
    }
  where
    place :
        {added : Dict (ExecutorPlugin BuiltinBackend)}
        → IsLoaded entries added plugins'
        → get_plugin plugin.descriptor.executor_id added ≡ ok plugin
        → (entry : Option (ExecutorPlugin BuiltinBackend)) → Memb entry (some plugin ∷ entries)
        → (p : ExecutorPlugin BuiltinBackend) × (entry ≡ some p)
          × (get_plugin p.descriptor.executor_id plugins' ≡ ok p)
    place loaded own entry (here q) =
        (plugin, q, loaded.keeps plugin.descriptor.executor_id plugin own)
    place loaded own entry (there m) = loaded.finds entry m

-- If the default registry is made, then so is the one without entry points, each of whose executors
-- the default registry finds under its id as it was; and every entry point gave a plugin, which the
-- registry finds under its own id.
pub default_execution_registry-IsLoaded :
    (find : Text → Option Text) (scripted : Bool)
    (entries : List (Option (ExecutorPlugin BuiltinBackend)))
    (plugins' : Dict (ExecutorPlugin BuiltinBackend))
    → default_execution_registry find scripted entries ≡ ok plugins'
    → (plugins : Dict (ExecutorPlugin BuiltinBackend)) × (builtin_registry find scripted
        ≡ ok plugins)
      × IsLoaded entries plugins plugins'
unfolding default_execution_registry
default_execution_registry-IsLoaded find scripted entries plugins' h =
    let (plugins, e, rest) = >>=-eq-ok (builtin_registry find scripted) _ h in
    (plugins, e, load_entry_points-IsLoaded entries plugins plugins' rest)
