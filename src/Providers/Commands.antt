-- ===== src/Providers/Commands.antt =====
-- What `build_invocation` of src/durable_threads/providers.py returns.
use durable_threads.Prelude.{
  Text, lit, nonblank, true, false, not, Option, none, some, [], ◌≡◌, refl, inl, inr, arith, ok,
  >>=-eq-ok, ok-injective, raise_if, subst,
}
use durable_threads.Errors.{provider_error}
use durable_threads.Providers.{
  Adapter, codex, claude, grok, cursor, ProviderInvocation, adapter_model, adapter_effort, has_code,
}
use durable_threads.Providers.Invocation.{
  build, build_invocation, check_request, get_adapter, bad_text,
}
use durable_threads.Providers.Argv.{
  Command, command, quiet_command, IsOptionalSession, absent, present, adapter_model-IsModel,
  adapter_effort-IsEffort, model-Options, effort-Options, session-Options, session_args-Options,
}

optional-IsSession : (s : Option Text) → bad_text s ≡ false → IsOptionalSession s
optional-IsSession none h = absent
optional-IsSession (some t) h =
    present (record { is_nonblank = ground arith; no_null = ground arith })

record IsChecked (prompt : Text) (session_id session_name : Option Text) : Type 0 where
  prompt_is_nonblank : nonblank prompt ≡ true
  prompt_has_no_null : has_code 0 prompt ≡ false
  session : IsOptionalSession session_id
  name : IsOptionalSession session_name

check_request-IsChecked :
    (prompt : Text) (session_id session_name : Option Text) (u : Unit {0})
    → check_request prompt session_id session_name ≡ ok u
    → IsChecked prompt session_id session_name
unfolding check_request
check_request-IsChecked prompt session_id session_name u h =
    let (u₁, a, h₁) =
      >>=-eq-ok
        (raise_if (not (nonblank prompt)) (provider_error "prompt must be a non-empty string")) _
        h in
    let (u₂, b, h₂) =
      >>=-eq-ok
        (raise_if (has_code 0 prompt) (provider_error "prompt must not contain a null character")) _
        h₁ in
    let (u₃, c, d) =
      >>=-eq-ok
        (raise_if (bad_text session_id)
          (provider_error "session_id must be empty or a non-empty safe string"))
        _ h₂ in
    record {
      prompt_is_nonblank = ground arith;
      prompt_has_no_null = ground arith;
      session = optional-IsSession session_id (ground arith);
      name = optional-IsSession session_name (ground arith);
    }

-- What an invocation is: no process at all, or a command with the prompt in its place.
pub data IsInvocation (prompt : Text) (i : ProviderInvocation) : Type 0 where
  native : i.argv ≡ [] → i.execution_mode ≡ lit "native-app" → IsInvocation prompt i
  cli :
      Command prompt i.argv
      → i.execution_mode ≡ lit "cli"
      → nonblank prompt ≡ true
      → has_code 0 prompt ≡ false
      → IsInvocation prompt i

module _ (find : Text → Option Text) where
  build-IsInvocation :
      (adapter : Adapter) (prompt model_selector reasoning_effort : Text)
      (session_id session_name executable : Option Text) (i : ProviderInvocation)
      → IsChecked prompt session_id session_name
      → build find adapter prompt model_selector reasoning_effort session_id session_name executable
        ≡ ok i
      → IsInvocation prompt i
  unfolding build
  build-IsInvocation codex prompt model_selector reasoning_effort session_id session_name executable
        i c h =
      subst (IsInvocation prompt) (ok-injective h) (native refl refl)
  build-IsInvocation claude prompt model_selector reasoning_effort session_id session_name
        executable i c h =
      let (model, m, h₁) = >>=-eq-ok (adapter_model claude model_selector) _ h in
      let (effort, e, same) = >>=-eq-ok (adapter_effort claude reasoning_effort) _ h₁ in
      subst (IsInvocation prompt) (ok-injective same) (
        cli
          (command (
            model-Options (lit "--model") model _ (inl refl)
              (adapter_model-IsModel claude _ model m)
              (effort-Options effort _ (adapter_effort-IsEffort claude _ effort e)
                (session_args-Options session_id session_name c.session c.name))))
          refl c.prompt_is_nonblank c.prompt_has_no_null)
  build-IsInvocation grok prompt model_selector reasoning_effort session_id session_name executable
        i c h =
      let (model, m, h₁) = >>=-eq-ok (adapter_model grok model_selector) _ h in
      let (effort, e, same) = >>=-eq-ok (adapter_effort grok reasoning_effort) _ h₁ in
      subst (IsInvocation prompt) (ok-injective same) (
        cli
          (quiet_command (
            model-Options (lit "-m") model _ (inr refl) (adapter_model-IsModel grok _ model m) (
              effort-Options effort _ (adapter_effort-IsEffort grok _ effort e)
                (session-Options (lit "--resume") session_id (inl refl) c.session))))
          refl c.prompt_is_nonblank c.prompt_has_no_null)
  build-IsInvocation cursor prompt model_selector reasoning_effort session_id session_name
        executable i c h =
      let (model, m, h₁) = >>=-eq-ok (adapter_model cursor model_selector) _ h in
      let (effort, e, same) = >>=-eq-ok (adapter_effort cursor reasoning_effort) _ h₁ in
      subst (IsInvocation prompt) (ok-injective same) (
        cli
          (command (
            model-Options (lit "--model") model _ (inl refl)
              (adapter_model-IsModel cursor _ model m)
              (session-Options (lit "--resume") session_id (inl refl) c.session)))
          refl c.prompt_is_nonblank c.prompt_has_no_null)

  -- An invocation that is built is either native, with no arguments, or a command in which the prompt,
  -- nonblank and with no null character, is the one argument behind `-p`, and all that follows the
  -- output format are pairs of a known flag and a value: a model of safe characters, a known effort,
  -- or a session id or name that is nonblank with no null character.
  pub build_invocation-IsInvocation :
      (provider prompt model_selector reasoning_effort : Text)
      (session_id session_name executable : Option Text) (i : ProviderInvocation)
      → build_invocation find provider prompt model_selector reasoning_effort session_id
          session_name executable
        ≡ ok i
      → IsInvocation prompt i
  unfolding build_invocation
  build_invocation-IsInvocation provider prompt model_selector reasoning_effort session_id
        session_name executable i h =
      let (u, checked, h₁) = >>=-eq-ok (check_request prompt session_id session_name) _ h in
      let (adapter, got, h₂) = >>=-eq-ok (get_adapter provider) _ h₁ in
      build-IsInvocation adapter prompt model_selector reasoning_effort session_id session_name
        executable i (check_request-IsChecked prompt session_id session_name u checked) h₂
