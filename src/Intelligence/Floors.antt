-- ===== src/Intelligence/Floors.antt =====
-- The floors that `assess_task` keeps, whatever the decision engine answers.
use durable_threads.Prelude.{
  ◌≤◌, Text, lit, ◌==◌, true, none, List, ◌≡◌, refl, ◌⊎◌, ok, >>=-eq-ok, arith, ◌≢◌, ==-false,
  ==_iff,
}
use durable_threads.Dict.{Dict}
use durable_threads.Json.{Json}
use durable_threads.Risk.{Risk, r3, rank, validate_risk, meets, classify_risk, RiskAssessment}
use durable_threads.Decisions.{DecisionEngine, DecisionBatch, DecisionPolicy}
use durable_threads.Intelligence.{TaskAssessment, higher, judge_task, assess_task, task_questions}

-- `higher` is an upper bound of the two classes, and one of them.
higher-bounds :
    (l r : Risk)
    → (rank l ≤ rank (higher l r))
      × (rank r ≤ rank (higher l r))
      × ((higher l r ≡ l) ⊎ (higher l r ≡ r))
unfolding higher
higher-bounds l r = ground arith

-- What the assessment says of the classes and the review, in terms of the classifier's class.
pub record Keeps (gate_at heuristic : Risk) (a : TaskAssessment) : Type 0 where
  pub classified : a.heuristic_risk ≡ heuristic
  pub floor : rank heuristic ≤ rank a.final_risk
  pub raised : rank a.semantic_risk ≤ rank a.final_risk
  pub either : (a.final_risk ≡ a.heuristic_risk) ⊎ (a.final_risk ≡ a.semantic_risk)
  pub reviewed : 3 ≤ rank a.final_risk → a.review_required ≡ true
  pub human : rank gate_at ≤ rank a.final_risk → a.human_gate_required ≡ true
  pub shaped : a.review_required ≡ true → a.execution_shape ≢ lit "single_worker"

reviewed_shape-ne-single : lit "worker_plus_review" ≢ lit "single_worker"
unfolding lit ◌==◌
reviewed_shape-ne-single = ==-false (lit "worker_plus_review") (lit "single_worker") refl

module _ (policy : DecisionPolicy) (gate_at heuristic : Risk) (batch : DecisionBatch)
    {a : TaskAssessment} (judged : judge_task policy gate_at heuristic batch ≡ ok a) where
  heuristic_kept : a.heuristic_risk ≡ heuristic
  unfolding judge_task
  heuristic_kept = ground arith

  final-higher : a.final_risk ≡ higher heuristic a.semantic_risk
  unfolding judge_task
  final-higher = ground arith

  final_bounds :
      (rank heuristic ≤ rank a.final_risk)
      × (rank a.semantic_risk ≤ rank a.final_risk)
      × ((a.final_risk ≡ heuristic) ⊎ (a.final_risk ≡ a.semantic_risk))
  final_bounds = rw final-higher (higher-bounds heuristic a.semantic_risk)

  high_reviewed : meets a.final_risk r3 ≡ true → a.review_required ≡ true
  unfolding judge_task
  high_reviewed = ground arith

  human-meets : a.human_gate_required ≡ meets a.final_risk gate_at
  unfolding judge_task
  human-meets = ground arith

  review_not_single : a.review_required ≡ true → a.execution_shape ≢ lit "single_worker"
  unfolding judge_task
  review_not_single r e =
      ground (arith, reviewed_shape-ne-single, ==_iff a.execution_shape (lit "single_worker"))

  pub judge_task-Keeps : Keeps gate_at heuristic a
  unfolding meets
  judge_task-Keeps = record {
    classified = heuristic_kept;
    floor = final_bounds.0;
    raised = final_bounds.1;
    either = rw heuristic_kept final_bounds.2;
    reviewed = λ h. high_reviewed (ground arith);
    human = λ h. rw human-meets (ground arith);
    shaped = review_not_single;
  }

-- Whatever the engine answers, a task that `assess_task` returns keeps the classifier's class as a
-- floor, is reviewed from R3 on, has a human gate from the gate's class on, and is not left to a
-- single worker when it is to be reviewed.
pub assess_task-Keeps :
    (engine : DecisionEngine) (objective : Text) (allowed_paths acceptance : List Text)
    (context : Dict Json) (policy : DecisionPolicy) (human_gate_at : Text) {a : TaskAssessment}
    → assess_task engine objective allowed_paths acceptance context policy human_gate_at ≡ ok a
    → (gate_at : Risk) × (c : RiskAssessment) × (validate_risk human_gate_at ≡ ok gate_at)
      × (classify_risk objective allowed_paths acceptance none (lit "R1") ≡ ok c)
      × Keeps gate_at c.risk_class a
unfolding assess_task
assess_task-Keeps engine objective allowed_paths acceptance context policy human_gate_at h =
    let (g, valid, h₁) = >>=-eq-ok (validate_risk human_gate_at) _ h in
    let (c, classified, h₂) =
      >>=-eq-ok (classify_risk objective allowed_paths acceptance none (lit "R1")) _ h₁ in
    let (qs, _, h₃) = >>=-eq-ok task_questions _ h₂ in
    let (batch, _, h₄) = >>=-eq-ok (engine _ qs) _ h₃ in
    (g, c, valid, classified, judge_task-Keeps policy g c.risk_class batch h₄)
