-- ===== src/Registry/Plugins.antt =====
-- Registering executors, and finding them again.
use durable_threads.Prelude.{
  inr, inl, Option-cases, raise_if, or_raise, Text, ◌==◌, Bool, true, false, not, ◌&&◌, none, some,
  ◌≡◌, refl, ok, arith, >>=-eq-ok, ok-injective, if◌then◌else◌, sym,
}
use durable_threads.Errors.{value_error, execution_error}
use durable_threads.Dict.{Dict, get, has, get-put}
use durable_threads.Registry.{ExecutorPlugin, register, get_plugin}

module _ {B : Type 0} where
  -- A registered plugin is the one that its id finds; every other id finds what it found before, and
  -- without `replace` its own id found nothing before.
  pub get_plugin-register :
      (plugin : ExecutorPlugin B) (replace : Bool) (plugins plugins' : Dict (ExecutorPlugin B))
      (executor_id : Text)
      → register plugin replace plugins ≡ ok plugins'
      → (get_plugin executor_id plugins' ≡ (
          if plugin.descriptor.executor_id == executor_id
          then ok plugin
          else get_plugin executor_id plugins))
        × (replace ≡ false → get plugin.descriptor.executor_id plugins ≡ none)
  unfolding register get_plugin has
  get_plugin-register plugin replace plugins plugins' executor_id h =
      let id = plugin.descriptor.executor_id in
      let (_, checked, h₁) =
        >>=-eq-ok
          (raise_if (has id plugins && not replace) (value_error "executor already registered")) _
          h in
      let found = get-put id executor_id plugin plugins in
      (
        rw (sym (ok-injective h₁)) (rw found (either (id == executor_id))),
        λ e.
            unfold has in
            elim (Option-cases (get id plugins)) [
              | inl none_there ↦ none_there
              | inr (p, e') ↦ absurd (ground arith)
            ],
      )
    where
      either :
          (b : Bool)
          → or_raise
              (if b then some plugin else get executor_id plugins)
              (execution_error "executor not registered")
            ≡ (if b
                then ok plugin
                else or_raise (get executor_id plugins) (execution_error "executor not registered"))
      either true = refl
      either false = refl
