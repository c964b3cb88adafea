-- ===== src/Intelligence/Acceptance.antt =====
-- When `assess_result` of src/durable_threads/intelligence.py calls a result ready and accepted, and
-- what `completion_gate` asks for.
use durable_threads.Prelude.{
  ◌≤◌, upper, lit, ◌==◌, Bool, true, false, ◌≡◌, refl, ◌⊎◌, ok, >>=-eq-ok, arith, pos, ℤ, ◌≤ℤ◌, ◌↔◌,
}
use durable_threads.Risk.{Risk, r3, rank, validate_risk, meets, label, parse_label, r0, r1, r2, r4}
use durable_threads.Decisions.{
  DecisionEngine, DecisionBatch, DecisionPolicy, threshold_for, auto_threshold,
}
use durable_threads.Intelligence.{
  ResultAssessment, ResultReport, judge_result, assess_result, result_questions, completion_gate,
  complete,
}

-- What a ready, and an accepted, result stands on.
pub record IsGrounded (risk : Risk) (threshold : ℤ) (report : ResultReport) (a : ResultAssessment)
    : Type 0 where
  pub exited : a.integration_ready ≡ true → report.exit_code ≡ pos 0
  pub evidenced : a.integration_ready ≡ true → report.evidence_complete ≡ true
  pub semantic : a.integration_ready ≡ true → threshold ≤ℤ a.semantic_complete_probability
  pub sufficient : a.integration_ready ≡ true → threshold ≤ℤ a.evidence_sufficient_probability
  pub ready : a.accepted ≡ true → a.integration_ready ≡ true
  pub unreviewed : a.accepted ≡ true → a.review_required ≡ false
  pub low : a.accepted ≡ true → rank risk ≤ 2
  pub high : 3 ≤ rank risk → a.review_required ≡ true

-- The label of a class finds the threshold of that class.
pub threshold_for-label :
    (policy : DecisionPolicy) (risk : Risk)
    → threshold_for policy (label risk) ≡ ok (auto_threshold policy risk)
unfolding threshold_for label parse_label upper ◌==◌ lit
threshold_for-label policy r0 = refl
threshold_for-label policy r1 = refl
threshold_for-label policy r2 = refl
threshold_for-label policy r3 = refl
threshold_for-label policy r4 = refl

judge_result-IsGrounded :
    (policy : DecisionPolicy) (risk : Risk) (report : ResultReport) (batch : DecisionBatch)
    {a : ResultAssessment} {threshold : ℤ}
    → judge_result policy risk report batch ≡ ok a
    → threshold_for policy (label risk) ≡ ok threshold
    → IsGrounded risk threshold report a
unfolding judge_result meets
judge_result-IsGrounded policy risk report batch h t = record {
  exited = λ r. ground arith;
  evidenced = ground arith;
  semantic = ground arith;
  sufficient = ground arith;
  ready = ground arith;
  unreviewed = ground arith;
  low = ground arith;
  high = ground arith;
}

-- A result is ready only with exit code 0, complete evidence and both probabilities at the threshold
-- of its class; it is accepted only if it is ready and needs no review, so never from R3 on.
pub assess_result-IsGrounded :
    (engine : DecisionEngine) (policy : DecisionPolicy) (report : ResultReport)
    {a : ResultAssessment}
    → assess_result engine policy report ≡ ok a
    → (risk : Risk) × (validate_risk report.risk_class ≡ ok risk)
      × IsGrounded risk (auto_threshold policy risk) report a
unfolding assess_result
assess_result-IsGrounded engine policy report h =
    let (risk, valid, h₁) = >>=-eq-ok (validate_risk report.risk_class) _ h in
    let (qs, _, h₂) = >>=-eq-ok result_questions _ h₁ in
    let (batch, _, h₃) = >>=-eq-ok (engine _ qs) _ h₂ in
    (
      risk,
      valid,
      judge_result-IsGrounded policy risk report batch h₃ (threshold_for-label policy risk),
    )

-- The gate says complete exactly for a ready result that was approved or that neither the task nor the
-- result asks to review.
completion_gate-complete :
    (ready task_review result_review approved : Bool)
    → (completion_gate ready task_review result_review approved ≡ complete)
      ↔ ((ready ≡ true) × ((approved ≡ true) ⊎ ((task_review ≡ false) × (result_review ≡ false))))
unfolding completion_gate
completion_gate-complete ready task_review result_review approved = ground arith
