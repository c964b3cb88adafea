-- ===== src/Attempt.antt =====
-- One executor attempt of src/durable_threads/temporal_workflows.py: AgentExecutionWorkflow, the
-- record of a failed child, the order of attempts and the effort ladder.
pub mod Ranking
use durable_threads.Prelude.{
  ℕ, suc, ◌+◌, Text, lit, ◌==◌, String, Bool, true, false, ◌&&◌, ◌||◌, Option, none, some, List, [],
  ◌∷◌, ◌++◌, ℤ, pos, ltb_ℤ, eq_ℤ, nat_eq, ltb, if◌then◌else◌, ok, err, ◌>>=◌, Result,
}
use durable_threads.Errors.{Error, Res, class_name}
use durable_threads.Risk.{Risk}
use durable_threads.Contracts.{
  TaskRunInput, ExecutionAttemptInput, VerificationInput, Verification, ResultDecisionInput,
  ExecutionOutcome, ResultView, AttemptResult, RouteExecutorsInput,
}
use durable_threads.Intelligence.{TaskAssessment}

-- The activities, as the workflows call them: each with the retries of its policy done. A call has
-- the attempt that it serves beside its input, so two calls may answer differently. An exception of a
-- child workflow reaches its parent as one of the engine, with this class name and this text.
pub record Activities : Type 0 where
  pub assess_task : TaskRunInput → Res TaskAssessment
  pub route_executors : ℕ → RouteExecutorsInput → Res (List Text)
  pub run_execution : ExecutionAttemptInput → Res ExecutionOutcome
  pub verify_execution : ExecutionAttemptInput → VerificationInput → Res Verification
  pub assess_result : ExecutionAttemptInput → ResultDecisionInput → Res ResultView
  pub child_failure : Error → Text × Text

unfoldable pub failed_attempt : Text → Text × Text → AttemptResult
failed_attempt provider error = record {
  provider = provider;
  return_code = pos 1;
  stdout = [];
  stderr = lit "child workflow failed: " ++ (error.0 ++ (lit ": " ++ error.1));
  session_id = none;
  usage = none;
  verification = record {
    complete = false;
    status = lit "child_failure";
    changed_paths = [];
    checks = [];
    remaining_concerns = lit "Execution failed before verified completion." ∷ [];
    actual_paths = [];
    error = some error.0;
  };
  result_assessment = record {
    integration_ready = false;
    accepted = false;
    review_required = true;
    intervention = lit "human_review";
    intervention_certainty = pos 1000;
    semantic_complete_probability = pos 0;
    evidence_sufficient_probability = pos 0;
  };
  accepted = false;
  review_required = true;
}

-- AgentExecutionWorkflow.run.
unfoldable pub run_attempt : Activities → ExecutionAttemptInput → Res AttemptResult
run_attempt activities request = do
  outcome ← activities.run_execution request
  verification ← activities.verify_execution request (record {
    cwd = request.task.cwd;
    base_ref = request.task.base_ref;
    allowed_paths = request.task.allowed_paths;
    stdout = outcome.stdout;
  })
  assessment ← activities.assess_result request (record {
    task = request.task;
    provider = request.provider;
    risk_class = request.risk_class;
    return_code = outcome.return_code;
    stdout = outcome.stdout;
    verification = verification;
  })
  ok (record {
    provider = request.provider;
    return_code = outcome.return_code;
    stdout = outcome.stdout;
    stderr = outcome.stderr;
    session_id = outcome.session_id;
    usage = outcome.usage;
    verification = verification;
    result_assessment = assessment;
    accepted = assessment.accepted;
    review_required = assessment.review_required;
  })

-- `run_one`: a child that fails is an attempt too.
unfoldable pub run_child : Activities → ExecutionAttemptInput → AttemptResult
run_child activities request = elim (run_attempt activities request) [
  | ok attempt ↦ attempt
  | err e ↦ failed_attempt request.provider (activities.child_failure e)
]

pub record Rank : Type 0 where
  pub accepted : ℕ
  pub ready : ℕ
  pub semantic : ℤ
  pub evidence : ℤ

abbrev bit : Bool → ℕ
bit true = 1
bit false = 0

-- `_attempt_rank`.
unfoldable pub attempt_rank : AttemptResult → Rank
attempt_rank attempt = record {
  accepted = bit attempt.accepted;
  ready = bit attempt.result_assessment.integration_ready;
  semantic = attempt.result_assessment.semantic_complete_probability;
  evidence = attempt.result_assessment.evidence_sufficient_probability;
}

-- `<` of the tuples.
unfoldable pub rank_lt : Rank → Rank → Bool
rank_lt a b =
    ltb a.accepted b.accepted
    || (nat_eq a.accepted b.accepted
        && (ltb a.ready b.ready
            || (nat_eq a.ready b.ready
                && (ltb_ℤ a.semantic b.semantic
                    || (eq_ℤ a.semantic b.semantic && ltb_ℤ a.evidence b.evidence)))))

-- `max(attempts, key=_attempt_rank)` of the attempts `a ∷ rest`: the first of the highest.
unfoldable pub best_of : AttemptResult → List AttemptResult → AttemptResult
best_of a [] = a
best_of a (b ∷ rest) = best_of (if rank_lt (attempt_rank a) (attempt_rank b) then b else a) rest

-- `ladder.index(current)`, and the element behind it; the last stays.
unfoldable pub stronger_effort : Text → Text
stronger_effort current =
    if current == lit "none"
    then lit "minimal"
    else if current == lit "minimal"
    then lit "low"
    else if current == lit "low"
    then lit "medium"
    else if current == lit "medium"
    then lit "high"
    else if current == lit "high"
    then lit "xhigh"
    else if current == lit "xhigh"
    then lit "max"
    else if current == lit "max"
    then lit "max"
    else lit "high"
