-- ===== src/Providers/Run.antt =====
-- One provider process: `run_invocation` of src/durable_threads/providers.py and `CliExecutionBackend` of
-- src/durable_threads/execution.py. `process` is the call of the operating system, with the argument
-- vector, the directory and the timeout; `find`, `is_dir` and `decode` read the file system and JSON.
-- How a process that ran too long is stopped, and a cancellation, are left out.
use durable_threads.Prelude.{
  nat_eq, false, ◌∷◌, ℕ, Text, lit, ◌==◌, Bool, not, ◌||◌, Option, none, some, List, ok, err, ◌>>=◌,
  ◌>>◌, raise_if, ℤ, pos, negsuc, ltb_ℤ, String, [], if◌then◌else◌,
}
use durable_threads.Errors.{Res, value_error, provider_error, execution_error, os_error}
use durable_threads.Contracts.{is_empty, ExecutionOutcome}
use durable_threads.Json.{Json}
use durable_threads.Dict.{Dict}
use durable_threads.Activities.{ExecutionRequest}
use durable_threads.Providers.{ProviderInvocation}
use durable_threads.Providers.Invocation.{build_invocation}
use durable_threads.Providers.Output.{bounded, execution_bounded, extract_session_id, extract_usage}

-- The texts are those of UTF-8, which is taken to be the encoding of the locale too. An output that is
-- no UTF-8 is undecodable; its texts are those that `errors="replace"` gives.
pub data Process : Type 0 where
  finished : (return_code : ℤ) (stdout stderr : Text) → Process
  undecodable : (return_code : ℤ) (stdout stderr : Text) → Process
  timed_out : Process
  unstarted : String → Process

pub record DispatchResult : Type 0 where
  pub provider : Text
  pub return_code : ℤ
  pub stdout : Text
  pub stderr : Text
  pub session_id : Option Text
  pub usage : Option (Dict ℤ)

abbrev starts_line : Text → Bool
starts_line [] = false
starts_line (c ∷ t) = nat_eq c 10

-- What `text=True` makes of an output: a carriage return, with the line feed behind it if there is
-- one, is a line feed.
unfoldable pub universal_newlines : Text → Text
universal_newlines [] = []
universal_newlines (c ∷ t) =
    let rest = universal_newlines t in
    if nat_eq c 13 then (if starts_line t then rest else 10 ∷ rest) else c ∷ rest

-- A limit that was checked to be positive, as a natural number.
abbrev pub limit_of : ℤ → ℕ
limit_of (pos n) = n
limit_of (negsuc n) = 0

module _ (decode : Text → Res (Option Json)) (is_dir : Text → Bool)
    (process : List Text → Text → ℤ → Process) where
  abbrev pub dispatch_result : Text → ℤ → Process → Res DispatchResult
  dispatch_result provider max_output_chars (finished code stdout stderr) = do
    session_id ← extract_session_id decode (universal_newlines stdout)
    usage ← extract_usage decode (universal_newlines stdout)
    ok (record {
      provider = provider;
      return_code = code;
      stdout = bounded (universal_newlines stdout) (limit_of max_output_chars);
      stderr = bounded (universal_newlines stderr) (limit_of max_output_chars);
      session_id = session_id;
      usage = usage;
    })
  dispatch_result provider max_output_chars (undecodable code stdout stderr) =
      err (value_error "UnicodeDecodeError")
  dispatch_result provider max_output_chars timed_out = err (provider_error "exceeded the timeout")
  dispatch_result provider max_output_chars (unstarted m) = err (os_error m)

  -- The guards that `run_invocation` and the backend share.
  abbrev pub no_process : ProviderInvocation → Bool
  no_process invocation = not (invocation.execution_mode == lit "cli") || is_empty invocation.argv

  unfoldable pub run_invocation :
      ProviderInvocation → (cwd : Text) (timeout_seconds max_output_chars : ℤ) → Res DispatchResult
  run_invocation invocation cwd timeout_seconds max_output_chars = do
    raise_if (no_process invocation)
        (provider_error "Codex uses native app actions and cannot run through this CLI")
    raise_if (ltb_ℤ timeout_seconds (pos 1))
        (provider_error "timeout_seconds must be an integer >= 1")
    raise_if (ltb_ℤ max_output_chars (pos 200))
        (provider_error "max_output_chars must be an integer >= 200")
    raise_if (not (is_dir cwd)) (provider_error "provider working directory not found")
    dispatch_result invocation.provider max_output_chars
        (process invocation.argv cwd timeout_seconds)

  abbrev pub or_session : Option Text → Option Text → Option Text
  or_session none other = other
  or_session (some t) other = some t

  abbrev kept_outcome : ExecutionRequest → Option Text → ℤ → Text → Text → Res ExecutionOutcome
  kept_outcome request session_id code stdout stderr =
      let kept = execution_bounded stdout (limit_of request.max_output_chars) in
      (extract_session_id decode kept >>= λ found. extract_usage decode kept >>= λ usage.
      ok (record {
        provider = request.provider;
        return_code = code;
        stdout = kept;
        stderr = execution_bounded stderr (limit_of request.max_output_chars);
        session_id = or_session found session_id;
        usage = usage;
      }))

  abbrev pub cli_outcome : ExecutionRequest → Option Text → Process → Res ExecutionOutcome
  cli_outcome request session_id (finished code stdout stderr) =
      kept_outcome request session_id code stdout stderr
  cli_outcome request session_id (undecodable code stdout stderr) =
      kept_outcome request session_id code stdout stderr
  cli_outcome request session_id timed_out = err (execution_error "exceeded the timeout")
  cli_outcome request session_id (unstarted m) = err (os_error m)

  module _ (find : Text → Option Text) where
    abbrev pub invocation_of :
        ExecutionRequest → (session_id executable : Option Text) → Res ProviderInvocation
    invocation_of request session_id executable =
        build_invocation find request.provider request.prompt request.model_selector
          request.reasoning_effort session_id request.session_name executable

    -- `CliExecutionBackend.execute`, with the request's two optional fields beside the others.
    unfoldable pub cli_execute :
        (backend : Text) (request : ExecutionRequest) (session_id executable : Option Text)
        → Res ExecutionOutcome
    cli_execute backend request session_id executable = do
      raise_if (not (request.provider == backend))
          (execution_error "backend cannot execute provider")
      invocation ← invocation_of request session_id executable
      raise_if (no_process invocation)
          (execution_error "provider requires a native runtime and is not headless")
      raise_if (not (is_dir request.cwd)) (execution_error "provider working directory not found")
      raise_if (ltb_ℤ request.timeout_seconds (pos 1))
          (execution_error "timeout_seconds must be >= 1")
      raise_if (ltb_ℤ request.max_output_chars (pos 200))
          (execution_error "max_output_chars must be >= 200")
      cli_outcome request session_id (process invocation.argv request.cwd request.timeout_seconds)
