-- ===== src/Providers/Invocation.antt =====
-- What src/durable_threads/providers.py runs for a request: the invocation that each adapter builds, and
-- the state of the executables. `find` is `_resolve_executable`, which asks the file system.
use durable_threads.Prelude.{
  Text, lit, ◌==◌, lower, strip, nonblank, Bool, true, false, not, ◌||◌, Option, none, some, List,
  [], ◌∷◌, ◌++◌, ok, ◌>>=◌, ◌>>◌, raise_if, or_raise, map, if◌then◌else◌,
}
use durable_threads.Errors.{Res, provider_error}
use durable_threads.Providers.{
  ProviderCapability, Adapter, codex, claude, grok, cursor, capability, ProviderInvocation,
  has_code, adapter_model, adapter_effort,
}

unfoldable pub first_found : (Text → Option Text) → List Text → Option Text
first_found find [] = none
first_found find (c ∷ cs) = elim (find c) [
  | none ↦ first_found find cs
  | some [] ↦ first_found find cs
  | some (p ∷ path) ↦ some (p ∷ path)
]

abbrev first_name : List Text → Text
first_name [] = []
first_name (c ∷ cs) = c

abbrev pub chosen : (Text → Option Text) → List Text → Text
chosen find names = elim (first_found find names) [ some path ↦ path | none ↦ first_name names ]

-- `argv.extend((flag, value))` where the value is there.
unfoldable pub option_args : Text → Option Text → List Text
option_args flag none = []
option_args flag (some []) = []
option_args flag (some (c ∷ t)) = flag ∷ (c ∷ t) ∷ []

abbrev pub session_args : Option Text → Option Text → List Text
session_args session_id session_name = elim (option_args (lit "--resume") session_id) [
  | [] ↦ option_args (lit "--name") session_name
  | a ∷ rest ↦ a ∷ rest
]

abbrev pub print_args : Text → List Text
print_args prompt = lit "-p" ∷ prompt ∷ lit "--output-format" ∷ lit "json" ∷ []

abbrev pub bad_text : Option Text → Bool
bad_text none = false
bad_text (some t) = not (nonblank t) || has_code 0 t

-- `_ADAPTERS.get`.
unfoldable pub adapter_named : Text → Option Adapter
adapter_named name =
    if name == lit "codex"
    then some codex
    else if name == lit "claude"
    then some claude
    else if name == lit "grok"
    then some grok
    else if name == lit "cursor"
    then some cursor
    else none

unfoldable pub get_adapter : Text → Res Adapter
get_adapter provider =
    or_raise (adapter_named (lower (strip provider))) (provider_error "provider must be one of")

-- The checks of `build_invocation` on its texts.
unfoldable pub check_request :
    (prompt : Text) (session_id session_name : Option Text) → Res (Unit {0})
check_request prompt session_id session_name = do
  raise_if (not (nonblank prompt)) (provider_error "prompt must be a non-empty string")
  raise_if (has_code 0 prompt) (provider_error "prompt must not contain a null character")
  raise_if (bad_text session_id)
      (provider_error "session_id must be empty or a non-empty safe string")
  raise_if (bad_text session_name)
      (provider_error "session_name must be empty or a non-empty safe string")

unfoldable pub get_capabilities : Option Text → Res (List ProviderCapability)
get_capabilities none =
    ok (capability codex ∷ capability claude ∷ capability grok ∷ capability cursor ∷ [])
get_capabilities (some provider) = do adapter ← get_adapter provider; ok (capability adapter ∷ [])

pub record ProviderStatus : Type 0 where
  pub capability : ProviderCapability
  pub available : Bool
  pub selected_executable : Option Text
  pub candidates : List (Text × Option Text)

abbrev is_found : Option Text → Bool
is_found none = false
is_found (some t) = true

module _ (find : Text → Option Text) where
  -- `_Adapter.executable`.
  unfoldable pub executable_of : Adapter → Option Text → Text
  executable_of adapter (some (c ∷ t)) = c ∷ t
  executable_of adapter _ = chosen find (capability adapter).executable_candidates

  abbrev pub cli_invocation :
      Adapter → Text → List Text → Option Text → Text → Option Text → ProviderInvocation
  cli_invocation adapter executable args model reasoning_effort session_id = record {
    provider = (capability adapter).provider;
    executable = some executable;
    argv = executable ∷ args;
    model = model;
    reasoning_effort = reasoning_effort;
    session_id = session_id;
    execution_mode = lit "cli";
    notes = (capability adapter).notes;
  }

  abbrev pub build_codex :
      (prompt model_selector reasoning_effort : Text)
      (session_id session_name executable : Option Text)
      → Res ProviderInvocation
  build_codex prompt model_selector reasoning_effort session_id session_name executable =
      ok (record {
        provider = lit "codex";
        executable = none;
        argv = [];
        model = none;
        reasoning_effort = lit "native";
        session_id = none;
        execution_mode = lit "native-app";
        notes = (capability codex).notes;
      })

  abbrev pub build_claude :
      (prompt model_selector reasoning_effort : Text)
      (session_id session_name executable : Option Text)
      → Res ProviderInvocation
  build_claude prompt model_selector reasoning_effort session_id session_name executable = do
    model ← adapter_model claude model_selector
    effort ← adapter_effort claude reasoning_effort
    ok (
        cli_invocation claude (executable_of claude executable)
          (print_args prompt
            ++ (option_args (lit "--model") model
                ++ (option_args (lit "--effort") effort ++ session_args session_id session_name)))
          model reasoning_effort session_id)

  abbrev pub build_grok :
      (prompt model_selector reasoning_effort : Text)
      (session_id session_name executable : Option Text)
      → Res ProviderInvocation
  build_grok prompt model_selector reasoning_effort session_id session_name executable = do
    model ← adapter_model grok model_selector
    effort ← adapter_effort grok reasoning_effort
    ok (
        cli_invocation grok (executable_of grok executable)
          (lit "--no-auto-update" ∷ print_args prompt
            ++ (option_args (lit "-m") model
                ++ (option_args (lit "--effort") effort
                    ++ option_args (lit "--resume") session_id)))
          model reasoning_effort session_id)

  abbrev pub build_cursor :
      (prompt model_selector reasoning_effort : Text)
      (session_id session_name executable : Option Text)
      → Res ProviderInvocation
  build_cursor prompt model_selector reasoning_effort session_id session_name executable = do
    model ← adapter_model cursor model_selector
    effort ← adapter_effort cursor reasoning_effort
    ok (
        cli_invocation cursor (executable_of cursor executable)
          (print_args prompt
            ++ (option_args (lit "--model") model ++ option_args (lit "--resume") session_id))
          model reasoning_effort session_id)

  -- `build` of each adapter.
  unfoldable pub build :
      Adapter
      → (prompt model_selector reasoning_effort : Text)
        (session_id session_name executable : Option Text)
      → Res ProviderInvocation
  build codex prompt model_selector reasoning_effort session_id session_name executable =
      build_codex prompt model_selector reasoning_effort session_id session_name executable
  build claude prompt model_selector reasoning_effort session_id session_name executable =
      build_claude prompt model_selector reasoning_effort session_id session_name executable
  build grok prompt model_selector reasoning_effort session_id session_name executable =
      build_grok prompt model_selector reasoning_effort session_id session_name executable
  build cursor prompt model_selector reasoning_effort session_id session_name executable =
      build_cursor prompt model_selector reasoning_effort session_id session_name executable

  unfoldable pub build_invocation :
      (provider prompt model_selector reasoning_effort : Text)
      (session_id session_name executable : Option Text)
      → Res ProviderInvocation
  build_invocation provider prompt model_selector reasoning_effort session_id session_name
        executable =
      do
        check_request prompt session_id session_name
        adapter ← get_adapter provider
        build adapter prompt model_selector reasoning_effort session_id session_name executable

  unfoldable pub capability_status : ProviderCapability → ProviderStatus
  capability_status c =
      let selected = first_found find c.executable_candidates in
      record {
        capability = c;
        available = is_found selected || c.provider == lit "codex";
        selected_executable = selected;
        candidates = map (λ name. (name, find name)) c.executable_candidates;
      }

  unfoldable pub provider_status : Option Text → Res (List ProviderStatus)
  provider_status provider = do found ← get_capabilities provider; ok (map capability_status found)
