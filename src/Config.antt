-- ===== src/Config.antt =====
-- src/durable_threads/config.py: the fields and entries of a roster. `d.get(key)` is null for a key that
-- is not there; the names of the fields, which the messages quote, are left out.
pub mod Roster
pub mod Entries
pub mod Valid
pub mod Loaded
pub mod Ladder
pub mod Whole
pub mod Samples
use durable_threads.Prelude.{
  ℕ, Text, lit, codes, ◌==◌, contains, lower, strip, nonblank, Bool, true, false, not, ◌&&◌, ◌||◌,
  Option, none, some, List, [], ◌∷◌, ok, err, ◌>>=◌, ◌>>◌, raise_if, if◌then◌else◌, ℤ, pos, ltb_ℤ,
  traverse, is_some,
}
use durable_threads.Errors.{Res, Error, config_error, type_error, is_value_error}
use durable_threads.Regex.{Regex, char, seq, up_to, fullmatch, is_digit, is_lower, in_set}
use durable_threads.Risk.{Risk, r1, r3, validate_risk}
use durable_threads.Json.{
  Json, Items, Fields, null, bool, int, float, str, arr, obj, nil, cons, end, field, get_field,
  items_list,
}
use durable_threads.Native.{WorkerConfig}

abbrev pub efforts : List Text
efforts =
    lit "none"
    ∷ lit "minimal"
    ∷ lit "low"
    ∷ lit "medium"
    ∷ lit "high"
    ∷ lit "xhigh"
    ∷ lit "max"
    ∷ []

abbrev pub execution_classes : List Text
execution_classes = lit "decision" ∷ lit "workhorse" ∷ lit "review" ∷ lit "specialist" ∷ []

abbrev pub profiles : List Text
profiles = lit "economy" ∷ lit "balanced" ∷ lit "frontier" ∷ []

abbrev id_start : ℕ → Bool
id_start c = is_lower c || is_digit c

-- `_PROVIDER_ID`.
unfoldable pub provider_id : Regex
provider_id = seq (char id_start) (up_to 63 (char (λ c. id_start c || in_set (codes "._-") c)))

-- `data.get(key, default)`.
unfoldable pub get_or : Text → Json → Fields → Json
get_or key default fs = elim (get_field key fs) [ some v ↦ v | none ↦ default ]

-- `_text` with `required`.
unfoldable pub text : Json → Res Text
text (str t) = do
  raise_if (not (nonblank t)) (config_error "must be a non-empty string")
  ok (strip t)
text v = err (config_error "must be a non-empty string")

-- `_text` without `required`.
unfoldable pub optional_text : Json → Res (Option Text)
optional_text null = ok none
optional_text v = do t ← text v; ok (some t)

-- `_integer`.
unfoldable pub integer : ℤ → Json → Res ℤ
integer minimum (int z) = do raise_if (ltb_ℤ z minimum) (config_error "must be an integer"); ok z
integer minimum v = err (config_error "must be an integer")

-- `_provider`.
unfoldable pub provider_of : Json → Res Text
provider_of v = do
  name ← text v
  raise_if (not (fullmatch provider_id (lower name)))
      (config_error "must be a lowercase provider id")
  ok (lower name)

-- `_execution_class`.
unfoldable pub execution_class_of : Text → Json → Res Text
execution_class_of default v = do
  item ← text (elim v [ null ↦ str default | other ↦ other ])
  raise_if (not (contains item execution_classes)) (config_error "must be one of")
  ok item

-- A reasoning effort that is one of `_EFFORTS`.
unfoldable pub effort_of : Json → Res Text
effort_of v = do
  effort ← text v
  raise_if (not (contains effort efforts)) (config_error "reasoningEffort is not supported")
  ok effort

-- `isinstance(value, bool)`, or an error.
unfoldable pub boolean : Json → Res Bool
boolean (bool b) = ok b
boolean v = err (config_error "must be a boolean")

-- `isinstance(value, dict)`, or an error.
unfoldable pub object : Json → Res Fields
object (obj fs) = ok fs
object v = err (config_error "must be an object")

pub record RoleConfig : Type 0 where
  pub role : Text
  pub provider : Text
  pub model_selector : Text
  pub reasoning_effort : Text
  pub execution_class : Text

-- `RoleConfig.from_dict`.
unfoldable pub role_config : Text → Json → Res RoleConfig
role_config default_class v = do
  data_fields ← object v
  role ← text (get_or (lit "role") null data_fields)
  provider ← provider_of (get_or (lit "provider") (str (lit "codex")) data_fields)
  selector ← text (get_or (lit "modelSelector") null data_fields)
  effort ← effort_of (get_or (lit "reasoningEffort") null data_fields)
  execution_class ←
      execution_class_of default_class (get_or (lit "executionClass") null data_fields)
  ok (record {
    role = role;
    provider = provider;
    model_selector = selector;
    reasoning_effort = effort;
    execution_class = execution_class;
  })
