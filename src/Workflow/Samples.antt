-- ===== src/Workflow/Samples.antt =====
-- Whole runs of the workflow with made-up activities, and its theorems there.
use durable_threads.Prelude.{
  Memb, Text, codes, lit, ◌==◌, contains, Bool, true, false, none, some, List, [], ◌∷◌, ◌≡◌, refl,
  ok, pos, if◌then◌else◌, here, there,
}
use durable_threads.Errors.{class_name}
use durable_threads.Risk.{r1, r4}
use durable_threads.Intelligence.{TaskAssessment, completion_gate}
use durable_threads.Contracts.{
  TaskRunInput, AttemptResult, ReviewDecision, TaskRunResult, complete, failed, Verification,
  ResultView,
}
use durable_threads.Attempt.{
  Activities, run_attempt, run_child, failed_attempt, attempt_rank, rank_lt, best_of,
  stronger_effort,
}
use durable_threads.Attempt.Ranking.{IsHighest, best_of-IsHighest}
use durable_threads.Session.{
  Session, initial, Reply, returned, blocked, wait_for_review, signal, begin_wait, resume, status,
}
use durable_threads.Workflow.{
  run, gated, after_gate, start_loop, rounds, give_up, one_round, distinct, run_children, run_all,
  decide, is_ready, intervene, intervention_of, ask, stop_with, result,
}
use durable_threads.Workflow.Soundness.{Sound, run-Sound}
use durable_threads.Workflow.Provenance.{IsChild, run-IsChild}
use durable_threads.Workflow.Turns.{IsFinished}
use durable_threads.Workflow.Progress.{run-IsFinished}

unfoldable pub workflow : Unit {0}
unfolding run gated after_gate start_loop rounds give_up one_round distinct run_children run_all
    run_child run_attempt failed_attempt decide is_ready intervene intervention_of ask stop_with
    result wait_for_review begin_wait signal resume status completion_gate best_of attempt_rank
    rank_lt stronger_effort lit ◌==◌ contains class_name
workflow = tt

abbrev pub task : TaskRunInput
task = record {
  objective = codes "fix the failing test";
  allowed_paths = codes "src" ∷ [];
  acceptance = codes "pytest" ∷ [];
  cwd = codes "/repo";
  constraints = [];
  preferred_providers = [];
  required_capabilities = codes "code" ∷ [];
  model_selector = codes "default";
  reasoning_effort = codes "medium";
  base_ref = none;
  max_attempts = pos 2;
  speculative_parallelism = pos 2;
  human_gate_at = codes "R4";
  wait_for_human_review = true;
  provider_timeout_seconds = pos 3600;
  max_output_chars = pos 8000;
}

abbrev pub assessment : Bool → Bool → TaskAssessment
assessment review gate = record {
  heuristic_risk = r1;
  semantic_risk = r1;
  final_risk = if gate then r4 else r1;
  delegate_probability = pos 850;
  ambiguity_probability = pos 200;
  independent_review_probability = pos 150;
  execution_shape = codes "single_worker";
  execution_shape_certainty = pos 900;
  review_required = review;
  human_gate_required = gate;
  batch = record { engine = []; model = []; state_hash = []; answers = []; usage = none };
}

abbrev verified : Verification
verified = record {
  complete = true;
  status = codes "complete";
  changed_paths = codes "src/a.py" ∷ [];
  checks = codes "pytest: passed" ∷ [];
  remaining_concerns = codes "None known" ∷ [];
  actual_paths = codes "src/a.py" ∷ [];
  error = none;
}

abbrev good_view : ResultView
good_view = record {
  integration_ready = true;
  accepted = true;
  review_required = false;
  intervention = codes "accept";
  intervention_certainty = pos 900;
  semantic_complete_probability = pos 900;
  evidence_sufficient_probability = pos 900;
}

abbrev bad_view : ResultView
bad_view = record good_view {
  integration_ready = false;
  accepted = false;
  intervention = codes "switch_executor";
  semantic_complete_probability = pos 100;
}

-- The first provider's work is judged bad, the second's good; the first is offered until it is
-- excluded.
pub world : TaskAssessment → Activities
world a = record {
  assess_task = λ _. ok a;
  route_executors = λ _ input. ok (
      if contains (codes "claude") input.excluded_providers
      then codes "grok" ∷ []
      else codes "claude" ∷ codes "claude" ∷ []);
  run_execution = λ input. ok (record {
    provider = input.provider;
    return_code = pos 0;
    stdout = codes "done";
    stderr = [];
    session_id = none;
    usage = none;
  });
  verify_execution = λ _ _. ok verified;
  assess_result = λ input _. ok (if input.provider == codes "grok" then good_view else bad_view);
  child_failure = λ e. (codes "ChildWorkflowError", codes "failed");
}

abbrev pub session : List ReviewDecision → Session
session ds = record { state = initial; inbox = ds }

abbrev pub approve : ReviewDecision
approve = record { approved = true; note = codes "ok" }

abbrev pub refuse : ReviewDecision
refuse = record { approved = false; note = codes "no" }

abbrev pub result_of : Reply TaskRunResult × Session → TaskRunResult → TaskRunResult
result_of (returned t, s) d = t
result_of (_, s) d = d

abbrev pub blank : TaskRunResult
blank = record {
  status = failed;
  final_risk = r1;
  selected_provider = none;
  task_assessment = assessment false false;
  attempts = [];
  review_note = none;
}

abbrev free_run : Reply TaskRunResult × Session
free_run = run (world (assessment false false)) task (session [])

finished : TaskRunResult
finished = result_of free_run blank

-- The second round completes the task with the other provider.
second_round_completes :
    (finished.status ≡ complete) × (finished.selected_provider ≡ some (codes "grok"))
unfolding finished workflow world
second_round_completes = (refl, refl)

run-Sound_example :
    (a : TaskAssessment) × ((world (assessment false false)).assess_task task ≡ ok a)
    × Sound a [] finished free_run.1
unfolding finished workflow world
run-Sound_example =
    run-Sound (world (assessment false false)) task (session []) free_run.1 finished refl

review_is_awaited : (run (world (assessment true false)) task (session [])).0 ≡ blocked
unfolding workflow world
review_is_awaited = refl

abbrev attempt : Text → ResultView → AttemptResult
attempt provider view = record {
  provider = provider;
  return_code = pos 0;
  stdout = [];
  stderr = [];
  session_id = none;
  usage = none;
  verification = verified;
  result_assessment = view;
  accepted = view.accepted;
  review_required = view.review_required;
}

best_of-IsHighest_example :
    IsHighest
      (best_of (attempt (codes "claude") bad_view) (attempt (codes "grok") good_view ∷ []))
      (attempt (codes "grok") good_view)
best_of-IsHighest_example =
    best_of-IsHighest (attempt (codes "claude") bad_view) (attempt (codes "grok") good_view ∷ [])
      (attempt (codes "grok") good_view) (there (here refl))

run-IsChild_example :
    (a : TaskAssessment) × ((world (assessment false false)).assess_task task ≡ ok a)
    × ((x : AttemptResult)
        → Memb x finished.attempts
        → IsChild (world (assessment false false)) task a x)
unfolding finished workflow world
run-IsChild_example =
    run-IsChild (world (assessment false false)) task (session []) free_run.1 finished refl

run-IsFinished_example :
    IsFinished 2 (run (world (assessment true true)) task (session (approve ∷ approve ∷ [])))
run-IsFinished_example = run-IsFinished (world (assessment true true)) task approve approve []
