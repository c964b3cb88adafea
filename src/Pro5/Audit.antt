-- ===== src/Pro5/Audit.antt =====
-- `audit_config` of pro5.py. A finding is its code, which fixes its message.
use durable_threads.Prelude.{
  ℕ, Text, lit, contains, Bool, true, false, not, ◌&&◌, ◌||◌, Option, none, some, List, [], ◌∷◌, ok,
  err, ◌>>=◌, or_else, is_some, if◌then◌else◌, ltb_ℤ, pos, leb, suc,
}
use durable_threads.Errors.{Res, value_error}
use durable_threads.Json.{
  arr, Json, Fields, end, field, null, bool, int, float, str, obj, get_field, put_field, truthy,
}
use durable_threads.Pro5.{safe_identifier, number_of}

-- `{**fs, **gs}`.
unfoldable pub merged : Fields → Fields → Fields
unfolding put_field
merged fs end = fs
merged fs (field k v gs) = merged (put_field k v fs) gs

-- The value of a key, from the base and the layer of the profile.
unfoldable pub overlaid : Option Json → Json → Json
unfolding merged
overlaid (some (obj fs)) (obj gs) = obj (merged fs gs)
overlaid base value = value

-- The loop over the items of the layer.
unfoldable pub with_layer : Fields → Fields → Fields
unfolding overlaid get_field put_field
with_layer effective end = effective
with_layer effective (field k v layer) =
    with_layer (put_field k (overlaid (get_field k effective) v) effective) layer

-- `profile or config.get("profile")`.
unfoldable pub selected_profile : Option Text → Fields → Option Json
unfolding get_field lit
selected_profile (some (c ∷ t)) config = some (str (c ∷ t))
selected_profile _ config = get_field (lit "profile") config

-- A value that has to be a table; `{}` where it is missing.
abbrev pub table : Option Json → Res Fields
table none = ok end
table (some (obj fs)) = ok fs
table (some v) = err (value_error "a table is expected")

abbrev layer_of : Option Json → Res Fields
layer_of (some (obj fs)) = ok fs
layer_of v = err (value_error "selected profile is absent from this configuration")

unfoldable pub effective_config : Option Json → Fields → Res Fields
unfolding with_layer get_field lit truthy
effective_config none config = ok config
effective_config (some null) config = ok config
effective_config (some (str [])) config = ok config
effective_config (some (str (c ∷ t))) config = do
  profiles ← table (get_field (lit "profiles") config)
  layer ← layer_of (get_field (c ∷ t) profiles)
  ok (with_layer config layer)
effective_config (some v) config = err (value_error "profile must be a string")

-- `isinstance(value, str) and value in {...}`.
unfoldable pub text_in : List Text → Option Json → Bool
unfolding contains
text_in ts (some (str t)) = contains t ts
text_in ts v = false

-- `isinstance(value, (int, float)) and value > 2`; a `bool` is an `int` that is at most 1.
unfoldable pub over_two : Option Json → Bool
unfolding number_of
over_two (some v) = elim (number_of v) [ none ↦ false | some n ↦ ltb_ℤ (pos 2000) n ]
over_two none = false

-- `item.get("enabled", True) is not False` of a table.
unfoldable pub is_enabled : Json → Bool
unfolding get_field lit
is_enabled (obj fs) = elim (get_field (lit "enabled") fs) [
  | none ↦ true
  | some v ↦ elim v [
    | null ↦ true
    | bool b ↦ b
    | int z ↦ true
    | float z ↦ true
    | str t ↦ true
    | arr vs ↦ true
    | obj gs ↦ true
  ]
]
is_enabled v = false

unfoldable pub enabled_count : Fields → ℕ
unfolding is_enabled
enabled_count end = 0
enabled_count (field k v fs) =
    let rest = enabled_count fs in if is_enabled v then suc rest else rest

-- The calls of `flag`, each under its condition.
unfoldable pub flagged : List (Bool × Text) → List Text
flagged [] = []
flagged ((wanted, code) ∷ flags) = let rest = flagged flags in if wanted then code ∷ rest else rest

abbrev pub expensive : List Text
expensive = lit "high" ∷ lit "xhigh" ∷ lit "max" ∷ lit "ultra" ∷ []

-- `agents.get("max_concurrent_threads_per_session", agents.get("max_threads"))`.
abbrev concurrency : Fields → Option Json
concurrency agents = elim (get_field (lit "max_concurrent_threads_per_session") agents) [
  | none ↦ get_field (lit "max_threads") agents
  | some v ↦ some v
]

-- Agents are on unless the table says otherwise, and no model is set for a child.
abbrev inherits : Fields → Bool
inherits agents =
    truthy (some (or_else (get_field (lit "enabled") agents) (bool true)))
    && not (truthy (get_field (lit "default_subagent_model") agents))

abbrev pub is_experimental : Option Json → Bool
is_experimental (some (obj fs)) =
    truthy (get_field (lit "reasoning_effort_override") fs)
    || truthy (get_field (lit "step_model_switching") fs)
is_experimental v = false

abbrev pub flags_of : Fields → Fields → ℕ → List (Bool × Text)
flags_of effective agents count =
    (
      text_in expensive (get_field (lit "model_reasoning_effort") effective),
      lit "EXPENSIVE_BASELINE",
    )
    ∷ (
      text_in (lit "fast" ∷ lit "priority" ∷ []) (get_field (lit "service_tier") effective),
      lit "FAST_TIER",
    )
    ∷ (
      is_some (get_field (lit "model_context_window") effective)
          || is_some (get_field (lit "model_auto_compact_token_limit") effective),
      lit "MANUAL_CONTEXT",
    )
    ∷ (inherits agents, lit "CHILD_INHERITANCE")
    ∷ (over_two (concurrency agents), lit "FANOUT")
    ∷ (leb 1 count, lit "MCP_CONTEXT")
    ∷ (is_experimental (get_field (lit "features") effective), lit "EXPERIMENTAL")
    ∷ []

unfoldable pub findings_of : Fields → Fields → ℕ → List Text
unfolding flagged text_in over_two get_field lit truthy
findings_of effective agents count = flagged (flags_of effective agents count)

pub record Audit : Type 0 where
  pub profile : Option Text
  pub model : Option Text
  pub effort : Option Text
  pub service_tier : Option Text
  pub enabled_mcp_servers : ℕ
  pub findings : List Text

-- The part of `audit_config` after the layers are put together.
unfoldable pub audit_effective : Option Json → Fields → Res Audit
unfolding findings_of enabled_count safe_identifier get_field lit
audit_effective selected effective = do
  agents ← table (get_field (lit "agents") effective)
  servers ← table (get_field (lit "mcp_servers") effective)
  ok (record {
    profile = safe_identifier selected;
    model = safe_identifier (get_field (lit "model") effective);
    effort = safe_identifier (get_field (lit "model_reasoning_effort") effective);
    service_tier = safe_identifier (get_field (lit "service_tier") effective);
    enabled_mcp_servers = enabled_count servers;
    findings = findings_of effective agents (enabled_count servers);
  })

unfoldable pub audit_config : Json → Option Text → Res Audit
unfolding audit_effective effective_config selected_profile
audit_config (obj config) profile = do
  effective ← effective_config (selected_profile profile config) config
  audit_effective (selected_profile profile config) effective
audit_config v profile = err (value_error "configuration must be a table")
