-- ===== src/Intelligence.antt =====
-- src/durable_threads/intelligence.py: the judgments of a task and of a result, where fixed policy
-- keeps the last word over the engine's answers.
mod Values
mod Questions
pub mod Floors
pub mod Acceptance
pub mod Samples
unfoldable pub use Values.{show_value, value_is}
unfoldable pub use Questions.{task_questions, result_questions}
use Values.{is_true}
use durable_threads.Prelude.{
  ℕ, zero, suc, ◌+◌, ◌/◌, ◌%◌, Text, String, lit, ◌==◌, Bool, true, false, not, ◌&&◌, ◌||◌, Option,
  none, some, List, [], ◌∷◌, ◌++◌, ℤ, pos, negsuc, leb_ℤ, eq_ℤ, leb, nat_eq, if◌then◌else◌, ok,
  ◌>>=◌, or_else, or_raise, take,
}
use durable_threads.Errors.{Res, value_error}
use durable_threads.Dict.{Dict, get}
use durable_threads.Json.{Json, str}
use durable_threads.Risk.{Risk, r3, rank, label, parse_label, validate_risk, meets, classify_risk}
use durable_threads.Decisions.{
  DecisionQuestion, noul_question, choice_question, Value, flag, text, number, DecisionBatch,
  answer, StateFields, object, DecisionEngine, DecisionPolicy, threshold_for,
}

unfoldable pub noul_probability : DecisionBatch → Text → Res ℤ
noul_probability batch name = do
  found ← answer batch name
  ok (
      or_else (get (lit "true") found.probabilities)
        (if is_true found.value then pos 1000 else pos 0))

-- `_higher_risk` of two classes that are valid.
unfoldable pub higher : Risk → Risk → Risk
higher left right = if leb (rank right) (rank left) then left else right

unfoldable pub higher_risk : Text → Text → Res Risk
higher_risk left right = do l ← validate_risk left; r ← validate_risk right; ok (higher l r)

pub record TaskAssessment : Type 0 where
  pub heuristic_risk : Risk
  pub semantic_risk : Risk
  pub final_risk : Risk
  pub delegate_probability : ℤ
  pub ambiguity_probability : ℤ
  pub independent_review_probability : ℤ
  pub execution_shape : Text
  pub execution_shape_certainty : ℤ
  pub review_required : Bool
  pub human_gate_required : Bool
  pub batch : DecisionBatch

pub record ResultAssessment : Type 0 where
  pub semantic_complete_probability : ℤ
  pub evidence_sufficient_probability : ℤ
  pub intervention : Text
  pub intervention_certainty : ℤ
  pub integration_ready : Bool
  pub accepted : Bool
  pub review_required : Bool
  pub batch : DecisionBatch

abbrev task_state : Text → List Text → List Text → Dict Json → StateFields
task_state objective allowed_paths acceptance context = record {
  objective = some objective;
  allowed_paths = some allowed_paths;
  acceptance = some acceptance;
  risk_class = none;
  provider = none;
  exit_code = none;
  evidence_complete = none;
  checks = none;
  remaining_concerns = none;
  worker_result = none;
  runtime = context;
}

-- What `assess_task` makes of the engine's batch.
unfoldable pub judge_task : DecisionPolicy → Risk → Risk → DecisionBatch → Res TaskAssessment
judge_task policy gate_at heuristic batch = do
  risk_answer ← answer batch (lit "risk")
  semantic ←
      or_raise (parse_label (show_value risk_answer.value))
        (value_error "decision engine returned unsupported risk class")
  let final = higher heuristic semantic
  delegate ← noul_probability batch (lit "delegate")
  ambiguity ← noul_probability batch (lit "ambiguous")
  independent ← noul_probability batch (lit "independent_review")
  shape ← answer batch (lit "execution_shape")
  threshold ← threshold_for policy (label final)
  let review =
      meets final r3
      || leb_ℤ threshold independent
      || value_is shape.value (lit "worker_plus_review")
  let chosen = show_value shape.value
  ok (record {
    heuristic_risk = heuristic;
    semantic_risk = semantic;
    final_risk = final;
    delegate_probability = delegate;
    ambiguity_probability = ambiguity;
    independent_review_probability = independent;
    execution_shape =
        if review && chosen == lit "single_worker" then lit "worker_plus_review" else chosen;
    execution_shape_certainty = shape.certainty;
    review_required = review;
    human_gate_required = meets final gate_at;
    batch = batch;
  })

unfoldable pub assess_task :
    DecisionEngine
    → (objective : Text) (allowed_paths acceptance : List Text) → Dict Json
    → DecisionPolicy
    → (human_gate_at : Text) → Res TaskAssessment
assess_task engine objective allowed_paths acceptance context policy human_gate_at = do
  gate_at ← validate_risk human_gate_at
  heuristic ← classify_risk objective allowed_paths acceptance none (lit "R1")
  questions ← task_questions
  batch ← engine (object (task_state objective allowed_paths acceptance context)) questions
  judge_task policy gate_at heuristic.risk_class batch

pub record ResultReport : Type 0 where
  pub objective : Text
  pub risk_class : Text
  pub provider : Text
  pub exit_code : ℤ
  pub evidence_complete : Bool
  pub worker_result : Text
  pub checks : List Text
  pub remaining_concerns : List Text

abbrev result_state : ResultReport → Risk → StateFields
result_state report risk = record {
  objective = some report.objective;
  allowed_paths = none;
  acceptance = none;
  risk_class = some (label risk);
  provider = some report.provider;
  exit_code = some report.exit_code;
  evidence_complete = some report.evidence_complete;
  checks = some report.checks;
  remaining_concerns = some report.remaining_concerns;
  worker_result = some (take 6000 report.worker_result);
  runtime = [];
}

-- What `assess_result` makes of the engine's batch.
unfoldable pub judge_result :
    DecisionPolicy → Risk → ResultReport → DecisionBatch → Res ResultAssessment
judge_result policy risk report batch = do
  semantic ← noul_probability batch (lit "semantic_complete")
  evidence ← noul_probability batch (lit "evidence_sufficient")
  intervention ← answer batch (lit "intervention")
  threshold ← threshold_for policy (label risk)
  let review = meets risk r3 || value_is intervention.value (lit "human_review")
  let ready =
      (eq_ℤ report.exit_code (pos 0) && report.evidence_complete)
      && leb_ℤ threshold semantic
      && leb_ℤ threshold evidence
      && value_is intervention.value (lit "accept")
  ok (record {
    semantic_complete_probability = semantic;
    evidence_sufficient_probability = evidence;
    intervention = show_value intervention.value;
    intervention_certainty = intervention.certainty;
    integration_ready = ready;
    accepted = ready && not review;
    review_required = review;
    batch = batch;
  })

unfoldable pub assess_result : DecisionEngine → DecisionPolicy → ResultReport → Res ResultAssessment
assess_result engine policy report = do
  risk ← validate_risk report.risk_class
  questions ← result_questions
  batch ← engine (object (result_state report risk)) questions
  judge_result policy risk report batch

pub data Completion : Type 0 where
  unverified review_required complete : Completion

unfoldable pub completion_gate :
    (integration_ready task_review_required result_review_required review_approved : Bool)
    → Completion
completion_gate integration_ready task_review_required result_review_required review_approved =
    if not integration_ready
    then unverified
    else if (task_review_required || result_review_required) && not review_approved
    then review_required
    else complete
