-- ===== src/Intelligence/Samples.antt =====
-- Both assessments with the heuristic engine, and their theorems there.
use durable_threads.Prelude.{
  Text, codes, lit, contains, traverse, true, false, none, [], ◌∷◌, ◌≡◌, refl, ok, pos, ◌-ℤ◌, ok_or,
}
use durable_threads.Dict.{get, put}
use durable_threads.Risk.{Risk, r1, r3, validate_risk, classify_risk, RiskAssessment, meets, rank}
use durable_threads.Risk.Samples.{classifier}
use durable_threads.Decisions.{
  DecisionBatch, DecisionState, DecisionEngine, default_policy, answer, threshold_for,
  auto_threshold, noul_question, choice_question,
}
use durable_threads.Decisions.Heuristic.{
  heuristic_engine, heuristic_round, heuristic_question, later_question, heuristic_answer,
  noul_answer, noul_probabilities, max_value, state_risk, intervention_of,
}
use durable_threads.Intelligence.{
  TaskAssessment, ResultAssessment, ResultReport, assess_task, judge_task, assess_result,
  judge_result, higher, noul_probability, task_questions, result_questions, show_value, value_is,
  completion_gate,
}
use durable_threads.Intelligence.Floors.{Keeps, assess_task-Keeps}
use durable_threads.Intelligence.Acceptance.{IsGrounded, assess_result-IsGrounded}

-- The definitions that a run of either assessment calls.
unfoldable pub assessments : Unit {0}
unfolding classifier assess_task judge_task assess_result judge_result higher meets rank
    noul_probability task_questions result_questions show_value value_is answer get put
    threshold_for auto_threshold noul_question choice_question heuristic_engine heuristic_round
    heuristic_question later_question heuristic_answer noul_answer noul_probabilities max_value
    state_risk intervention_of contains traverse ◌-ℤ◌ completion_gate
assessments = tt

abbrev digest : DecisionState → Text
digest state = codes "sha256:0"

abbrev pub engine : DecisionEngine
engine = heuristic_engine digest

abbrev objective : Text
objective = codes "rotate the auth token"

final_class :
    classify_risk objective [] [] none (lit "R1")
    ≡ ok (record {
      risk_class = r3;
      reasons = codes "critical security, data, production, or concurrency signal detected" ∷ [];
      explicit = false;
    })
unfolding classifier
final_class = refl

abbrev no_answers : DecisionBatch
no_answers = record { engine = []; model = []; state_hash = []; answers = []; usage = none }

abbrev blank_task : TaskAssessment
blank_task = record {
  heuristic_risk = r1;
  semantic_risk = r1;
  final_risk = r1;
  delegate_probability = pos 0;
  ambiguity_probability = pos 0;
  independent_review_probability = pos 0;
  execution_shape = [];
  execution_shape_certainty = pos 0;
  review_required = false;
  human_gate_required = false;
  batch = no_answers;
}

pub high_task : TaskAssessment
high_task = ok_or (assess_task engine objective [] [] [] default_policy (lit "R4")) blank_task

high_task_reviewed :
    (high_task.review_required ≡ true) × (high_task.execution_shape ≡ codes "worker_plus_review")
unfolding high_task assessments
high_task_reviewed = (refl, refl)

assess_task-Keeps_example :
    (gate_at : Risk) × (c : RiskAssessment) × (validate_risk (lit "R4") ≡ ok gate_at)
    × (classify_risk objective [] [] none (lit "R1") ≡ ok c)
    × Keeps gate_at c.risk_class high_task
unfolding high_task assessments
assess_task-Keeps_example =
    assess_task-Keeps engine objective [] [] [] default_policy (lit "R4") {a = high_task} refl

abbrev report : ResultReport
report = record {
  objective = objective;
  risk_class = codes "R2";
  provider = codes "claude";
  exit_code = pos 0;
  evidence_complete = true;
  worker_result = codes "done";
  checks = codes "pytest: 3 passed" ∷ [];
  remaining_concerns = codes "None known" ∷ [];
}

abbrev blank_result : ResultAssessment
blank_result = record {
  semantic_complete_probability = pos 0;
  evidence_sufficient_probability = pos 0;
  intervention = [];
  intervention_certainty = pos 0;
  integration_ready = false;
  accepted = false;
  review_required = false;
  batch = no_answers;
}

accepted_result : ResultAssessment
accepted_result = ok_or (assess_result engine default_policy report) blank_result

result_accepted : accepted_result.accepted ≡ true
unfolding accepted_result assessments
result_accepted = refl

assess_result-IsGrounded_example :
    (risk : Risk) × (validate_risk (codes "R2") ≡ ok risk)
    × IsGrounded risk (auto_threshold default_policy risk) report accepted_result
unfolding accepted_result assessments
assess_result-IsGrounded_example =
    assess_result-IsGrounded engine default_policy report {a = accepted_result} refl
