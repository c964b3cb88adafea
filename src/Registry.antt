-- ===== src/Registry.antt =====
-- The executor registry of src/durable_threads/execution.py. `B` is the type of a backend, which
-- the package only hands on; a probe is the answer that it gives at the time of the call.
pub mod Order
pub mod Required
pub mod Selection
pub mod Plugins
pub mod Builtin
pub mod Shadows
pub mod Samples
use durable_threads.Prelude.{
  ℕ, suc, ◌+◌, ◌*◌, Text, lit, codes, ◌==◌, text_ltb, contains, nonblank, Bool, true, false, not,
  ◌&&◌, ◌||◌, Option, none, some, List, [], ◌∷◌, ◌++◌, ℤ, pos, pos_part, ltb_ℤ, ltb, nat_eq, length,
  take, all, if◌then◌else◌, ok, err, ◌>>=◌, ◌>>◌, raise_if, or_raise, or_else, is_some,
}
use durable_threads.Errors.{Res, value_error, execution_error}
use durable_threads.Dict.{Dict, get, put, has}
use durable_threads.Regex.{Regex, char, seq, up_to, fullmatch, is_digit, is_lower, in_set}

abbrev id_start : ℕ → Bool
id_start c = is_lower c || is_digit c

-- `_EXECUTOR_ID`.
unfoldable pub executor_id_pattern : Regex
executor_id_pattern =
    seq (char id_start) (up_to 63 (char (λ c. id_start c || in_set (codes "._-") c)))

pub record ExecutorDescriptor : Type 0 where
  pub executor_id : Text
  pub provider : Text
  pub runtime : Text
  pub capabilities : List Text
  pub persistent_sessions : Bool
  pub headless : Bool
  pub structured_output : Bool
  pub supports_effort : Bool
  pub metadata : Dict Text

-- `__post_init__`.
unfoldable pub check_descriptor : ExecutorDescriptor → Res ExecutorDescriptor
check_descriptor d = do
  raise_if (not (fullmatch executor_id_pattern d.executor_id)) (value_error "invalid executor_id")
  raise_if (not (fullmatch executor_id_pattern d.provider)) (value_error "invalid provider id")
  raise_if (not (nonblank d.runtime)) (value_error "runtime must be non-empty")
  ok d

pub record ExecutionRequirements : Type 0 where
  pub capabilities : List Text
  pub headless : Bool
  pub persistent_session : Bool
  pub structured_output : Bool
  pub effort_control : Bool
  pub preferred_providers : List Text
  pub excluded_providers : List Text

pub record ExecutionSelection : Type 0 where
  pub descriptor : ExecutorDescriptor
  pub score : ℕ
  pub reasons : List Text

-- `preferred.get(provider)`: of two entries for a provider the later one counts.
unfoldable pub preferred_weight : Text → List Text → Option ℕ
preferred_weight p [] = none
preferred_weight p (q ∷ qs) = elim (preferred_weight p qs) [
  | some w ↦ some w
  | none ↦ if q == p then some (suc (length qs)) else none
]

abbrev pub points : Bool → ℕ → ℕ
points true n = n
points false n = 0

abbrev said : Bool → Text → List Text
said true t = t ∷ []
said false t = []

unfoldable pub selection_of : ExecutionRequirements → ExecutorDescriptor → ExecutionSelection
selection_of requirements d =
    let weight = preferred_weight d.provider requirements.preferred_providers in
    record {
      descriptor = d;
      score =
          or_else weight 0 * 100
          + points d.structured_output 5
          + points d.persistent_sessions 3
          + points d.supports_effort 1;
      reasons =
          lit "required capabilities satisfied"
          ∷ (said (is_some weight) (lit "preferred provider")
              ++ (said d.structured_output (lit "structured output")
                  ++ (said d.persistent_sessions (lit "persistent sessions")
                      ++ said d.supports_effort (lit "reasoning effort control"))));
    }

-- The `continue`s of `rank` that look at the descriptor alone.
unfoldable pub misses : ExecutionRequirements → ExecutorDescriptor → Bool
misses r d =
    contains d.provider r.excluded_providers
    || not (all (λ c. contains c d.capabilities) r.capabilities)
    || (r.headless && not d.headless)
    || (r.persistent_session && not d.persistent_sessions)
    || (r.structured_output && not d.structured_output)
    || (r.effort_control && not d.supports_effort)

-- The order of the key `(-score, executor_id)`; equal keys keep their places.
unfoldable pub is_before : ExecutionSelection → ExecutionSelection → Bool
is_before a b =
    ltb b.score a.score
    || (nat_eq a.score b.score && not (text_ltb b.descriptor.executor_id a.descriptor.executor_id))

unfoldable pub insert : ExecutionSelection → List ExecutionSelection → List ExecutionSelection
insert s [] = s ∷ []
insert s (t ∷ ts) = let rest = insert s ts in if is_before s t then s ∷ (t ∷ ts) else t ∷ rest

unfoldable pub sorted : List ExecutionSelection → List ExecutionSelection
sorted [] = []
sorted (s ∷ ss) = insert s (sorted ss)

pub record ExecutorPlugin (B : Type 0) : Type 0 where
  pub descriptor : ExecutorDescriptor
  pub backend_factory : Option B
  pub availability_probe : Option Bool

module _ {B : Type 0} where
  -- ExecutionRegistry.register: the registry that the call leaves, or its exception.
  unfoldable pub register :
      ExecutorPlugin B → Bool → Dict (ExecutorPlugin B) → Res (Dict (ExecutorPlugin B))
  register plugin replace plugins = do
    raise_if (has plugin.descriptor.executor_id plugins && not replace)
        (value_error "executor already registered")
    ok (put plugin.descriptor.executor_id plugin plugins)

  unfoldable pub get_plugin : Text → Dict (ExecutorPlugin B) → Res (ExecutorPlugin B)
  get_plugin executor_id plugins =
      or_raise (get executor_id plugins) (execution_error "executor not registered")

  unfoldable pub available : Text → Dict (ExecutorPlugin B) → Res Bool
  available executor_id plugins = do
    plugin ← get_plugin executor_id plugins
    ok (or_else plugin.availability_probe true)

  unfoldable pub backend : Text → Dict (ExecutorPlugin B) → Res B
  backend executor_id plugins = do
    plugin ← get_plugin executor_id plugins
    or_raise plugin.backend_factory
        (execution_error "executor is native-only and has no headless backend")

  module _ (requirements : ExecutionRequirements) (available_only : Bool)
      (plugins : Dict (ExecutorPlugin B)) where
    -- Whether the loop of `rank` goes on to score a plugin.
    unfoldable pub suitable : ExecutorDescriptor → Res Bool
    suitable d =
        if misses requirements d
        then ok false
        else if available_only
        then available d.executor_id plugins
        else ok true

    unfoldable pub candidates : Dict (ExecutorPlugin B) → Res (List ExecutionSelection)
    candidates [] = ok []
    candidates ((k, plugin) ∷ rest) = do
      fits ← suitable plugin.descriptor
      found ← candidates rest
      ok (if fits then selection_of requirements plugin.descriptor ∷ found else found)

    -- ExecutionRegistry.rank.
    unfoldable pub rank_plugins : Res (List ExecutionSelection)
    rank_plugins = do found ← candidates plugins; ok (sorted found)

    abbrev some_of : ℤ → List ExecutionSelection → Res (List ExecutionSelection)
    some_of count [] =
        err (execution_error "no registered executor satisfies the execution requirements")
    some_of count (s ∷ ss) = ok (take (pos_part count) (s ∷ ss))

    -- ExecutionRegistry.select.
    unfoldable pub select : ℤ → Res (List ExecutionSelection)
    select count = do
      raise_if (ltb_ℤ count (pos 1)) (value_error "count must be >= 1")
      ranked ← rank_plugins
      some_of count ranked
