-- ===== src/Cli/Caught.antt =====
-- The exceptions of the body of `_dispatch` in src/durable_threads/cli.py: which classes the calls
-- in it can raise.
use durable_threads.Providers.Output.{extract_session_id, extract_usage}
use durable_threads.Prelude.{
  Text, Bool, true, false, none, some, List, ◌≡◌, refl, arith, ok, ◌>>=◌, ◌>>◌, raise_if,
  if◌then◌else◌, ℤ,
}
use durable_threads.Errors.{evidence_error, provider_error}
use durable_threads.Contracts.{is_empty}
use durable_threads.Evidence.{validate_evidence}
use durable_threads.Evidence.Git.{git_changed_paths}
use durable_threads.Evidence.Report.{parse_worker_result}
use durable_threads.Providers.{ProviderInvocation}
use durable_threads.Providers.Run.{
  Process, finished, undecodable, timed_out, unstarted, DispatchResult, run_invocation,
  dispatch_result,
}
use durable_threads.Cli.Args.{DispatchArgs, Machine, Target, is_caught}
use durable_threads.Cli.{verify, attempt, run_it, other_session}
use durable_threads.Cli.Raised.{
  handled, handled-bind, extract_session_id-handled, extract_usage-handled,
  parse_worker_result-handled, git_changed_paths-handled, validate_evidence-handled,
}

-- An output of a process that is text.
abbrev pub decodable : Process → Bool
decodable (undecodable code stdout stderr) = false
decodable _ = true

module _ (machine : Machine) (loads : (t : Text) → handled (machine.decode t) ≡ true)
    (runs : (cwd : Text) (argv : List Text) → handled (machine.git cwd argv) ≡ true) where
  dispatch_result-handled :
      (provider : Text) (limit : ℤ) (p : Process)
      → decodable p ≡ true
      → handled (dispatch_result machine.decode machine.is_dir machine.process provider limit p)
        ≡ true
  unfolding is_caught
  dispatch_result-handled provider limit (finished code stdout stderr) d =
      handled-bind (extract_session_id machine.decode _) _
        (extract_session_id-handled machine.decode loads _)
        (λ found.
          handled-bind (extract_usage machine.decode _) _
            (extract_usage-handled machine.decode loads _) (λ usage. refl))
  dispatch_result-handled provider limit (undecodable code stdout stderr) d = absurd (ground arith)
  dispatch_result-handled provider limit timed_out d = refl
  dispatch_result-handled provider limit (unstarted m) d = refl

  run_it-handled :
      (i : ProviderInvocation) (cwd : Text) (timeout limit : ℤ)
      → decodable (machine.process i.argv cwd timeout) ≡ true
      → handled (run_it machine i cwd timeout limit) ≡ true
  unfolding run_invocation is_caught
  run_it-handled i cwd timeout limit d =
      ground
        (arith, dispatch_result-handled i.provider limit (machine.process i.argv cwd timeout) d)

  verify-handled :
      (args : DispatchArgs) (r : DispatchResult) → handled (verify machine args r) ≡ true
  unfolding verify is_caught
  verify-handled args r = asked args.verify_evidence
    where
      asked :
          (b : Bool)
          → handled (
              if b
              then (raise_if
                    (is_empty args.allowed_path)
                    (evidence_error "--verify-evidence requires at least one --allowed-path")
                  >> (parse_worker_result machine.decode r.stdout >>= λ evidence.
                      git_changed_paths
                        (machine.is_dir args.cwd)
                        (machine.git args.cwd)
                        args.base_ref
                      >>= λ actual.
                          validate_evidence machine.fnmatch evidence args.allowed_path (some actual)
                          >>= λ verified. ok (some verified)))
              else ok none)
            ≡ true
      asked false = refl
      asked true =
          handled-bind
            (raise_if (is_empty args.allowed_path)
              (evidence_error "--verify-evidence requires at least one --allowed-path"))
            _ (ground arith)
            (λ u.
              handled-bind (parse_worker_result machine.decode r.stdout) _
                (parse_worker_result-handled machine.decode loads r.stdout)
                (λ evidence.
                  handled-bind
                    (git_changed_paths (machine.is_dir args.cwd) (machine.git args.cwd)
                      args.base_ref)
                    _
                    (git_changed_paths-handled (machine.is_dir args.cwd) (machine.git args.cwd)
                      args.base_ref (runs args.cwd))
                    (λ actual.
                      handled-bind
                        (validate_evidence machine.fnmatch evidence args.allowed_path (some actual))
                        _
                        (validate_evidence-handled machine.fnmatch evidence args.allowed_path
                          (some actual))
                        (λ verified. refl))))

  pub attempt-handled :
      (args : DispatchArgs) (t : Target) (i : ProviderInvocation)
      → decodable (machine.process i.argv args.cwd args.timeout) ≡ true
      → handled (attempt machine args t i) ≡ true
  unfolding attempt is_caught
  attempt-handled args t i d =
      handled-bind (run_it machine i args.cwd args.timeout t.max_output_chars) _
        (run_it-handled i args.cwd args.timeout t.max_output_chars d)
        (λ r.
          handled-bind
            (raise_if (other_session machine t.session_id r.session_id)
              (provider_error "provider returned a different session ID; inspect before retry"))
            _ (ground arith)
            (λ u. handled-bind (verify machine args r) _ (verify-handled args r) (λ v. refl)))
