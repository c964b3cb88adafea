-- ===== src/Providers/Runners.antt =====
-- What the two runners of a provider process, in src/durable_threads/providers.py and
-- src/durable_threads/execution.py, return for one process.
use durable_threads.Providers.Output.{extract_session_id, extract_usage}
use durable_threads.Prelude.{
  ltb_ℤ-false, Text, ==_refl, Bool, true, false, not, Option, List, ◌≤◌, ◌≡◌, subst, arith, ok,
  >>=-eq-ok, ok-injective, raise_if, ℤ, pos, ltb_ℤ, ◌≤ℤ◌, length, [], ◌∷◌, refl, nat_eq, all, ap,
}
use durable_threads.Errors.{provider_error, Res}
use durable_threads.Contracts.{ExecutionOutcome}
use durable_threads.Json.{Json}
use durable_threads.Activities.{ExecutionRequest}
use durable_threads.Providers.{ProviderInvocation}
use durable_threads.Providers.Bounds.{bounded-short, length-bounded, execution_bounded-bounded}
use durable_threads.Providers.Run.{
  Process, finished, undecodable, timed_out, unstarted, DispatchResult, limit_of, dispatch_result,
  no_process, run_invocation, cli_execute, cli_outcome, or_session, invocation_of,
  universal_newlines,
}

-- A text without carriage returns.
abbrev pub IsPlainText : Text → Type 0
IsPlainText t = all (λ c. not (nat_eq c 13)) t ≡ true

universal_newlines-IsPlainText : (t : Text) → IsPlainText t → universal_newlines t ≡ t
unfolding universal_newlines all
universal_newlines-IsPlainText [] h = refl
universal_newlines-IsPlainText (c ∷ t) h =
    let rest = universal_newlines-IsPlainText t (ground arith) in
    let other : nat_eq c 13 ≡ false = ground arith in rw other (ap (λ u. c ∷ u) rest)

module _ (decode : Text → Res (Option Json)) (is_dir : Text → Bool)
    (process : List Text → Text → ℤ → Process) where
  -- What a run that returned has passed and kept.
  pub record HasRun (invocation : ProviderInvocation) (cwd : Text)
      (timeout_seconds max_output_chars : ℤ) (result : DispatchResult) : Type 0 where
    pub is_cli : no_process decode is_dir process invocation ≡ false
    pub in_time : pos 1 ≤ℤ timeout_seconds
    pub at_least_200 : pos 200 ≤ℤ max_output_chars
    pub in_directory : is_dir cwd ≡ true
    pub returns :
        dispatch_result decode is_dir process invocation.provider max_output_chars
          (process invocation.argv cwd timeout_seconds)
        ≡ ok result

  pub run_invocation-HasRun :
      (invocation : ProviderInvocation) (cwd : Text) (timeout_seconds max_output_chars : ℤ)
      (result : DispatchResult)
      → run_invocation decode is_dir process invocation cwd timeout_seconds max_output_chars
        ≡ ok result
      → HasRun invocation cwd timeout_seconds max_output_chars result
  unfolding run_invocation
  run_invocation-HasRun invocation cwd timeout_seconds max_output_chars result h =
      let (u₁, cli, h₁) =
        >>=-eq-ok
          (raise_if (no_process decode is_dir process invocation)
            (provider_error "Codex uses native app actions and cannot run through this CLI"))
          _ h in
      let (u₂, timeout, h₂) =
        >>=-eq-ok
          (raise_if (ltb_ℤ timeout_seconds (pos 1))
            (provider_error "timeout_seconds must be an integer >= 1"))
          _ h₁ in
      let (u₃, chars, h₃) =
        >>=-eq-ok
          (raise_if (ltb_ℤ max_output_chars (pos 200))
            (provider_error "max_output_chars must be an integer >= 200"))
          _ h₂ in
      let (u₄, dir, h₄) =
        >>=-eq-ok
          (raise_if (not (is_dir cwd)) (provider_error "provider working directory not found")) _
          h₃ in
      record {
        is_cli = ground arith;
        in_time = ground arith;
        at_least_200 = ground arith;
        in_directory = ground arith;
        returns = h₄;
      }

  kept-IsBounded :
      (provider : Text) (max_output_chars : ℤ) (p : Process) (result : DispatchResult)
      → dispatch_result decode is_dir process provider max_output_chars p ≡ ok result
      → (length result.stdout ≤ limit_of max_output_chars)
        × (length result.stderr ≤ limit_of max_output_chars)
  kept-IsBounded provider max_output_chars (finished code stdout stderr) result h =
      let (found, e₁, h₁) = >>=-eq-ok (extract_session_id decode (universal_newlines stdout)) _ h in
      let (usage, e₂, h₂) = >>=-eq-ok (extract_usage decode (universal_newlines stdout)) _ h₁ in
      let kept = ok-injective h₂ in
      (
        subst (λ (r : DispatchResult). length r.stdout ≤ limit_of max_output_chars) kept
            (length-bounded (universal_newlines stdout) (limit_of max_output_chars)),
        subst (λ (r : DispatchResult). length r.stderr ≤ limit_of max_output_chars) kept
            (length-bounded (universal_newlines stderr) (limit_of max_output_chars)),
      )
  kept-IsBounded provider max_output_chars (undecodable code stdout stderr) result h =
      absurd (ground arith)
  kept-IsBounded provider max_output_chars timed_out result h = absurd (ground arith)
  kept-IsBounded provider max_output_chars (unstarted m) result h = absurd (ground arith)

  -- Where `run_invocation` returns, the output and the error text it keeps are at most
  -- `max_output_chars` long, and that limit is 200 or more.
  pub run_invocation-IsBounded :
      (invocation : ProviderInvocation) (cwd : Text) (timeout_seconds max_output_chars : ℤ)
      (result : DispatchResult)
      → run_invocation decode is_dir process invocation cwd timeout_seconds max_output_chars
        ≡ ok result
      → (pos (length result.stdout) ≤ℤ max_output_chars)
        × (pos (length result.stderr) ≤ℤ max_output_chars)
        × (pos 200 ≤ℤ max_output_chars)
  run_invocation-IsBounded invocation cwd timeout_seconds max_output_chars result h =
      let ran = run_invocation-HasRun invocation cwd timeout_seconds max_output_chars result h in
      let (out, error) =
        kept-IsBounded invocation.provider max_output_chars
          (process invocation.argv cwd timeout_seconds) result ran.returns in
      let least = ran.at_least_200 in (ground arith, ground arith, least)

  -- The outcome of a backend as far as the result of `run_invocation` determines it.
  abbrev pub outcome_of : Text → Option Text → DispatchResult → ExecutionOutcome
  outcome_of provider session_id result = record {
    provider = provider;
    return_code = result.return_code;
    stdout = result.stdout;
    stderr = result.stderr;
    session_id = or_session decode is_dir process result.session_id session_id;
    usage = result.usage;
  }

  cli_outcome-dispatch_result :
      (provider : Text) (request : ExecutionRequest) (session_id : Option Text) (code : ℤ)
      (stdout stderr : Text) (result : DispatchResult)
      → pos 200 ≤ℤ request.max_output_chars
      → pos (length stdout) ≤ℤ request.max_output_chars
      → IsPlainText stdout
      → IsPlainText stderr
      → dispatch_result decode is_dir process provider request.max_output_chars
          (finished code stdout stderr)
        ≡ ok result
      → cli_outcome decode is_dir process request session_id (finished code stdout stderr)
        ≡ ok (outcome_of request.provider session_id result)
  cli_outcome-dispatch_result provider request session_id code stdout stderr result least short out
        error h =
      let n = limit_of request.max_output_chars in
      let same_out = execution_bounded-bounded stdout n (ground arith) in
      let same_err = execution_bounded-bounded stderr n (ground arith) in
      let plain_out = universal_newlines-IsPlainText stdout out in
      let plain_err = universal_newlines-IsPlainText stderr error in
      let (found, e₁, h₁) = >>=-eq-ok (extract_session_id decode (universal_newlines stdout)) _ h in
      let (usage, e₂, h₂) = >>=-eq-ok (extract_usage decode (universal_newlines stdout)) _ h₁ in
      let in_session = subst (λ t. extract_session_id decode t ≡ ok found) plain_out e₁ in
      let in_usage = subst (λ t. extract_usage decode t ≡ ok usage) plain_out e₂ in
      let whole = bounded-short stdout n (ground arith) in
      subst
        (λ r.
          cli_outcome decode is_dir process request session_id (finished code stdout stderr)
          ≡ ok (outcome_of request.provider session_id r))
        (ok-injective h₂)
        (simp (plain_out, plain_err, same_out, same_err, whole, in_session, in_usage))

  module _ (find : Text → Option Text) where
    -- For a request whose invocation can be built, and a process that ends with an output no longer
    -- than `max_output_chars`, where neither its output nor its error text has a carriage return or
    -- needs another encoding than UTF-8: where `run_invocation` returns, the backend of the request's
    -- provider returns the same code, output, error text and usage, and the same session, for which it
    -- puts the request's own session where the output names none.
    pub cli_execute-run_invocation :
        (request : ExecutionRequest) (session_id executable : Option Text)
        (invocation : ProviderInvocation) (code : ℤ) (stdout stderr : Text)
        (result : DispatchResult)
        → invocation_of decode is_dir process find request session_id executable ≡ ok invocation
        → process invocation.argv request.cwd request.timeout_seconds ≡ finished code stdout stderr
        → pos (length stdout) ≤ℤ request.max_output_chars
        → IsPlainText stdout
        → IsPlainText stderr
        → run_invocation decode is_dir process invocation request.cwd request.timeout_seconds
            request.max_output_chars
          ≡ ok result
        → cli_execute decode is_dir process find request.provider request session_id executable
          ≡ ok (outcome_of request.provider session_id result)
    unfolding cli_execute
    cli_execute-run_invocation request session_id executable invocation code stdout stderr result
          built ends short out error h =
        let ran =
          run_invocation-HasRun invocation request.cwd request.timeout_seconds
            request.max_output_chars result h in
        let agrees =
          cli_outcome-dispatch_result invocation.provider request session_id code stdout stderr
            result ran.at_least_200 short out error (rw ends at ran.returns) in
        let in_time = ltb_ℤ-false request.timeout_seconds (pos 1) ran.in_time in
        let least = ltb_ℤ-false request.max_output_chars (pos 200) ran.at_least_200 in
        rw (==_refl request.provider)
          (rw built (rw ran.is_cli (rw ran.in_directory (rw in_time (rw least (rw ends agrees))))))
