-- ===== src/Providers.antt =====
-- src/durable_threads/providers.py: the adapters, their capabilities and the models they accept.
pub mod Invocation
pub mod Output
pub mod Run
pub mod Runners
pub mod Argv
pub mod Commands
pub mod Bounds
pub mod Usage
pub mod Samples
use durable_threads.Prelude.{
  ℕ, Text, lit, codes, ◌==◌, contains, lower, strip, nonblank, span_until, Bool, true, false, not,
  ◌&&◌, ◌||◌, Option, none, some, List, [], ◌∷◌, ◌++◌, ok, err, ◌>>=◌, ◌>>◌, raise_if, or_raise,
  if◌then◌else◌, nat_eq, map, any, first,
}
use durable_threads.Errors.{Res, provider_error}
use durable_threads.Contracts.{is_empty}
use durable_threads.Regex.{Regex, char, at_least, is_alnum, in_set, fullmatch}

pub record ProviderCapability : Type 0 where
  pub provider : Text
  pub display_name : Text
  pub executable_candidates : List Text
  pub persistent_sessions : Bool
  pub headless : Bool
  pub structured_output : Bool
  pub supports_effort : Bool
  pub protocol : Text
  pub notes : List Text

pub data Adapter : Type 0 where
  codex claude grok cursor : Adapter

abbrev pub codex_capability : ProviderCapability
codex_capability = record {
  provider = lit "codex";
  display_name = lit "OpenAI Codex";
  executable_candidates = lit "codex" ∷ [];
  persistent_sessions = true;
  headless = false;
  structured_output = false;
  supports_effort = true;
  protocol = lit "native-app";
  notes =
      lit "Use native Codex task actions for list, send, wait, and read operations."
      ∷ lit "The Python helper does not replace Codex app actions."
      ∷ [];
}

abbrev pub claude_capability : ProviderCapability
claude_capability = record {
  provider = lit "claude";
  display_name = lit "Anthropic Claude Code";
  executable_candidates = lit "claude" ∷ [];
  persistent_sessions = true;
  headless = true;
  structured_output = true;
  supports_effort = true;
  protocol = lit "cli";
  notes =
      lit "Use Claude Code --resume with the provider session ID."
      ∷ lit "Use model aliases such as opus, sonnet, or haiku to avoid retired IDs."
      ∷ [];
}

abbrev pub grok_capability : ProviderCapability
grok_capability = record {
  provider = lit "grok";
  display_name = lit "xAI Grok Build";
  executable_candidates = lit "grok" ∷ [];
  persistent_sessions = true;
  headless = true;
  structured_output = true;
  supports_effort = true;
  protocol = lit "cli";
  notes =
      lit "Use Grok Build --resume or --session-id for durable headless sessions."
      ∷ lit "Use a model name from the local Grok catalog or use default."
      ∷ lit "Disable automatic CLI updates in automation with --no-auto-update."
      ∷ [];
}

abbrev pub cursor_capability : ProviderCapability
cursor_capability = record {
  provider = lit "cursor";
  display_name = lit "Cursor Agent";
  executable_candidates = lit "agent" ∷ lit "cursor-agent" ∷ [];
  persistent_sessions = true;
  headless = true;
  structured_output = true;
  supports_effort = false;
  protocol = lit "cli";
  notes =
      lit "Use --resume with the Cursor chat ID."
      ∷ lit "Use an account-visible model ID from the Cursor model catalog."
      ∷ lit "Cursor model parameters are account-specific and are not guessed by this adapter."
      ∷ [];
}

unfoldable pub capability : Adapter → ProviderCapability
capability codex = codex_capability
capability claude = claude_capability
capability grok = grok_capability
capability cursor = cursor_capability

pub record ProviderInvocation : Type 0 where
  pub provider : Text
  pub executable : Option Text
  pub argv : List Text
  pub model : Option Text
  pub reasoning_effort : Text
  pub session_id : Option Text
  pub execution_mode : Text
  pub notes : List Text

abbrev pub providers : List Text
providers = lit "codex" ∷ lit "claude" ∷ lit "grok" ∷ lit "cursor" ∷ []

abbrev pub efforts : List Text
efforts =
    lit "none"
    ∷ lit "minimal"
    ∷ lit "low"
    ∷ lit "medium"
    ∷ lit "high"
    ∷ lit "xhigh"
    ∷ lit "max"
    ∷ []

abbrev pub role_selectors : List Text
role_selectors = lit "frontier" ∷ lit "balanced" ∷ lit "efficient" ∷ []

-- `_SAFE_MODEL`.
unfoldable pub safe_model : Regex
safe_model = at_least 1 (char (λ c. is_alnum c || in_set (codes "._:/=@+?-") c))

unfoldable pub has_code : ℕ → Text → Bool
has_code n [] = false
has_code n (c ∷ s) = nat_eq c n || has_code n s

-- What is left of a selector without the prefix of its own provider.
unfoldable pub without_prefix : Text → Text → Res Text
without_prefix provider value =
    let parts = span_until b':' value in
    if parts.2 && contains (lower parts.0) providers
    then (if lower parts.0 == provider
        then ok parts.1
        else err (provider_error "model selector belongs to provider"))
    else ok value

-- `_selector_value`.
unfoldable pub selector_value : Text → Text → Res Text
selector_value provider selector = do
  raise_if (not (nonblank selector)) (provider_error "model selector must be a non-empty string")
  value ← without_prefix provider (strip selector)
  raise_if (is_empty value || has_code 0 value || has_code 13 value || has_code 10 value)
      (provider_error "model selector is invalid")
  ok value

-- The end of both kinds of `resolve_model`.
unfoldable pub checked_model : Text → Res (Option Text)
checked_model value = if lower value == lit "default" then ok none else (do
  raise_if (not (fullmatch safe_model value))
      (provider_error "model selector contains unsafe characters")
  ok (some value))

abbrev pub claude_alias : Text → Text
claude_alias value =
    if lower value == lit "frontier"
    then lit "opus"
    else if lower value == lit "balanced"
    then lit "sonnet"
    else if lower value == lit "efficient"
    then lit "haiku"
    else value

-- `_Adapter.resolve_model`.
unfoldable pub base_model : Adapter → Text → Res (Option Text)
base_model adapter selector = do
  value ← selector_value (capability adapter).provider selector
  checked_model value

unfoldable pub no_role_model : Adapter → Text → Res (Option Text)
no_role_model adapter selector = do
  value ← selector_value (capability adapter).provider selector
  raise_if (contains (lower value) role_selectors)
      (provider_error "generic role selectors are not mapped")
  base_model adapter value

-- `resolve_model` of each adapter.
unfoldable pub adapter_model : Adapter → Text → Res (Option Text)
adapter_model codex selector = base_model codex selector
adapter_model claude selector = do
  value ← selector_value (capability claude).provider selector
  checked_model (claude_alias value)
adapter_model grok selector = no_role_model grok selector
adapter_model cursor selector = no_role_model cursor selector

-- `_Adapter.effort`.
unfoldable pub adapter_effort : Adapter → Text → Res (Option Text)
adapter_effort adapter value = do
  raise_if (not (contains value efforts)) (provider_error "reasoning effort must be one of")
  ok (
      if contains value (lit "none" ∷ lit "minimal" ∷ [])
      then none
      else if (capability adapter).supports_effort
      then some value
      else none)
