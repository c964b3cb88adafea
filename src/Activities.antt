-- ===== src/Activities.antt =====
-- src/durable_threads/temporal_activities.py: the activities that the workflows call. What they reach
-- outside the package is a parameter: the engine, the registered executors, JSON decoding, file name
-- patterns, directories and git. A heartbeat changes nothing and is left out.
pub mod Verified
pub mod Routes
mod Samples
use durable_threads.Prelude.{
  ℕ, Text, lit, codes, ◌==◌, contains, join, Bool, true, false, not, ◌&&◌, ◌||◌, Option, none, some,
  List, [], ◌∷◌, ◌++◌, map, ok, err, ◌>>=◌, Result, if◌then◌else◌, ℤ, pos, is_some,
}
use durable_threads.Errors.{Error, Res, is_value_error, class_name, os_error, execution_error}
use durable_threads.Dict.{Dict}
use durable_threads.Json.{Json, Items, str, arr, int, nil, cons}
use durable_threads.Risk.{Risk, label}
use durable_threads.Decisions.{DecisionEngine, default_policy}
use durable_threads.Intelligence.{TaskAssessment, ResultAssessment, assess_task, assess_result}
use durable_threads.Contracts.{
  TaskRunInput, RouteExecutorsInput, ExecutionAttemptInput, VerificationInput, Verification,
  ResultDecisionInput, ResultView, ExecutionOutcome, is_empty,
}
use durable_threads.Attempt.{Activities}
use durable_threads.Registry.{
  ExecutorPlugin, ExecutionRequirements, ExecutionSelection, select, backend,
}
use durable_threads.Evidence.{WorkerEvidence, validate_evidence}
use durable_threads.Evidence.Git.{GitRun, git_changed_paths}
use durable_threads.Evidence.Report.{parse_worker_result}

pub record ExecutionRequest : Type 0 where
  pub provider : Text
  pub prompt : Text
  pub cwd : Text
  pub model_selector : Text
  pub reasoning_effort : Text
  pub session_name : Option Text
  pub timeout_seconds : ℤ
  pub max_output_chars : ℤ

abbrev pub Backend : Type 0
Backend = ExecutionRequest → Res ExecutionOutcome

-- What the activities reach, at the time of an attempt.
pub record World : Type 0 where
  pub engine : DecisionEngine
  pub plugins : ℕ → Dict (ExecutorPlugin Backend)
  pub plugins_at : ExecutionAttemptInput → Dict (ExecutorPlugin Backend)
  pub decode : Text → Res (Option Json)
  pub fnmatch : Text → Text → Bool
  pub is_dir : ExecutionAttemptInput → Text → Bool
  pub git : ExecutionAttemptInput → Text → List Text → Res GitRun
  pub show_int : ℤ → Text
  pub child_failure : Error → Text × Text

abbrev strings : List Text → Json
strings items = arr (go items)
  where
    go : List Text → Items
    go [] = nil
    go (t ∷ ts) = cons (str t) (go ts)

module _ (world : World) where
  unfoldable pub assess_task_activity : TaskRunInput → Res TaskAssessment
  assess_task_activity task =
      assess_task world.engine task.objective task.allowed_paths task.acceptance
        ((lit "constraints", strings task.constraints)
          ∷ (lit "preferredProviders", strings task.preferred_providers)
          ∷ (lit "requiredCapabilities", strings task.required_capabilities)
          ∷ (lit "maxAttempts", int task.max_attempts)
          ∷ (lit "speculativeParallelism", int task.speculative_parallelism)
          ∷ [])
        default_policy task.human_gate_at

  -- Writers that share a checkout are not run side by side.
  unfoldable pub route_count : RouteExecutorsInput → ℤ
  route_count request =
      let mutating =
        contains (lit "filesystem") request.task.required_capabilities
        || contains (lit "git") request.task.required_capabilities in
      if request.assessment.execution_shape == lit "parallel_workers" && not mutating
      then request.task.speculative_parallelism
      else pos 1

  unfoldable pub route_requirements : RouteExecutorsInput → ExecutionRequirements
  route_requirements request = record {
    capabilities = request.task.required_capabilities;
    headless = true;
    persistent_session = false;
    structured_output = true;
    effort_control = false;
    preferred_providers =
        if is_empty request.preferred_providers
        then request.task.preferred_providers
        else request.preferred_providers;
    excluded_providers = request.excluded_providers;
  }

  -- `except ExecutionError: return []`.
  abbrev pub no_route : Res (List ExecutionSelection) → Res (List Text)
  no_route (ok selections) = ok (map (λ (s : ExecutionSelection). s.descriptor.provider) selections)
  no_route (err (execution_error m)) = ok []
  no_route (err e) = err e

  -- The providers of the selections, which is what the workflow reads of them.
  unfoldable pub route_executors_activity : ℕ → RouteExecutorsInput → Res (List Text)
  route_executors_activity index request =
      no_route
        (select (route_requirements request) true (world.plugins index) (route_count request))

  abbrev bullets : List Text → Text
  bullets items = join (codes "\n") (map (λ t. lit "- " ++ t) items)

  unfoldable pub runtime_prompt : ExecutionAttemptInput → Text
  runtime_prompt request =
      lit "OBJECTIVE\n"
      ++ (request.task.objective
          ++ (lit "\n\nRISK\n"
              ++ (label request.risk_class
                  ++ (lit "\n\nALLOWED PATHS\n"
                      ++ (bullets request.task.allowed_paths
                          ++ (lit "\n\nACCEPTANCE\n"
                              ++ (bullets request.task.acceptance
                                  ++ (lit "\n\nCONSTRAINTS\n"
                                      ++ ((if is_empty request.task.constraints
                                            then lit "- None supplied"
                                            else bullets request.task.constraints)
                                          ++ (lit
                                                "\n\nEXECUTION RULES\n- Work only inside the allowed paths unless a generated lockfile or required metadata\n  change is unavoidable; report any such exception.\n- Do not expose credentials, environment secrets, or private data.\n- Run focused deterministic checks before claiming completion.\n- Do not claim a check passed unless you executed it.\n\nRESULT CONTRACT\nReturn a JSON object with exactly these semantic fields (additional diagnostic fields are allowed):\n{\n  \"status\": \"complete|blocked|failed\",\n  \"provider\": \""
                                              ++ (request.provider
                                                  ++ lit
                                                      "\",\n  \"changedPaths\": [\"path\"],\n  \"checks\": [\"exact command/check and result\"],\n  \"remainingConcerns\": [\"concern or None known\"]\n}\n")))))))))))

  unfoldable pub run_execution_activity : ExecutionAttemptInput → Res ExecutionOutcome
  run_execution_activity request = do
    execute ← backend request.provider (world.plugins_at request)
    execute (record {
      provider = request.provider;
      prompt = runtime_prompt request;
      cwd = request.task.cwd;
      model_selector = request.task.model_selector;
      reasoning_effort = request.task.reasoning_effort;
      session_name =
          some (lit "dt-" ++ (world.show_int request.attempt ++ (lit "-" ++ request.provider)));
      timeout_seconds = request.task.provider_timeout_seconds;
      max_output_chars = request.task.max_output_chars;
    })

  unfoldable pub verified_report :
      ExecutionAttemptInput → VerificationInput → Res (WorkerEvidence × List Text)
  verified_report attempt request = do
    evidence ← parse_worker_result world.decode request.stdout
    actual_paths ←
        git_changed_paths (world.is_dir attempt request.cwd) (world.git attempt request.cwd)
          request.base_ref
    verified ← validate_evidence world.fnmatch evidence request.allowed_paths (some actual_paths)
    ok (verified, actual_paths)

  abbrev is_os_error : Error → Bool
  is_os_error (os_error m) = true
  is_os_error e = false

  abbrev pub report_of : Res (WorkerEvidence × List Text) → Res Verification
  report_of (ok (verified, actual_paths)) = ok (record {
    complete = verified.status == lit "complete";
    status = verified.status;
    changed_paths = verified.changed_paths;
    checks = verified.checks;
    remaining_concerns = verified.concerns;
    actual_paths = actual_paths;
    error = none;
  })
  report_of (err e) =
      if is_value_error e || is_os_error e
      then ok (record {
        complete = false;
        status = lit "invalid_evidence";
        changed_paths = [];
        checks = [];
        remaining_concerns = lit "Evidence verification failed." ∷ [];
        actual_paths = [];
        error = some (lit (class_name e));
      })
      else err e

  unfoldable pub verify_execution_activity :
      ExecutionAttemptInput → VerificationInput → Res Verification
  verify_execution_activity attempt request = report_of (verified_report attempt request)

  -- The keys of an assessment that the workflow reads.
  abbrev pub view_of : ResultAssessment → ResultView
  view_of a = record {
    integration_ready = a.integration_ready;
    accepted = a.accepted;
    review_required = a.review_required;
    intervention = a.intervention;
    intervention_certainty = a.intervention_certainty;
    semantic_complete_probability = a.semantic_complete_probability;
    evidence_sufficient_probability = a.evidence_sufficient_probability;
  }

  unfoldable pub assess_result_activity : ResultDecisionInput → Res ResultView
  assess_result_activity request = do
    assessment ← assess_result world.engine default_policy (record {
      objective = request.task.objective;
      risk_class = label request.risk_class;
      provider = request.provider;
      exit_code = request.return_code;
      evidence_complete = request.verification.complete;
      worker_result = request.stdout;
      checks = request.verification.checks;
      remaining_concerns = request.verification.remaining_concerns;
    })
    ok (view_of assessment)

  -- The activities of the worker.
  unfoldable pub worker_activities : Activities
  worker_activities = record {
    assess_task = assess_task_activity;
    route_executors = route_executors_activity;
    run_execution = run_execution_activity;
    verify_execution = verify_execution_activity;
    assess_result = λ attempt request. assess_result_activity request;
    child_failure = world.child_failure;
  }
