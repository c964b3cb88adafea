-- ===== src/Activities/Verified.antt =====
-- From the workflow down to the working tree: what a completed task stands on when the activities are
-- those of the worker.
use durable_threads.Prelude.{
  Text, lit, ==_iff, true, Option, some, List, ◌≡◌, refl, sym, subst, ap, ◌∙◌, arith, ok, err,
  >>=-eq-ok, ok-injective, Memb, ℤ, pos, ◌≤ℤ◌,
}
use durable_threads.Errors.{Res}
use durable_threads.Risk.{Risk}
use durable_threads.Risk.Signals.{validate_risk-label}
use durable_threads.Decisions.{default_policy, auto_threshold}
use durable_threads.Intelligence.{TaskAssessment, assess_result}
use durable_threads.Intelligence.Acceptance.{assess_result-IsGrounded}
use durable_threads.Contracts.{
  TaskRunInput, ExecutionAttemptInput, Verification, ResultDecisionInput, ResultView, AttemptResult,
  TaskRunResult, complete,
}
use durable_threads.Attempt.{run_child, run_attempt, failed_attempt}
use durable_threads.Session.{Session, returned}
use durable_threads.Workflow.{run, is_ready}
use durable_threads.Workflow.Soundness.{run-Sound}
use durable_threads.Workflow.Provenance.{run-IsChild}
use durable_threads.Evidence.{WorkerEvidence, validate_evidence}
use durable_threads.Evidence.Git.{git_changed_paths}
use durable_threads.Evidence.Report.{parse_worker_result}
use durable_threads.Evidence.Safety.{IsSafe, validate_evidence-IsSafe}
use durable_threads.Activities.{
  World, verified_report, report_of, verify_execution_activity, assess_result_activity,
  assess_task_activity, worker_activities, view_of, run_execution_activity,
}

module _ (world : World) where
  -- A report of the worker that was read, compared with git's changes and found safe and complete.
  pub record IsVerified (request : ExecutionAttemptInput) (stdout : Text)
      (allowed_paths : List Text) (base_ref : Option Text) : Type 0 where
    pub claimed : WorkerEvidence
    pub valid : WorkerEvidence
    pub actual : List Text
    pub read : parse_worker_result world.decode stdout ≡ ok claimed
    pub changed :
        git_changed_paths
          (world.is_dir request request.task.cwd)
          (world.git request request.task.cwd)
          base_ref
        ≡ ok actual
    pub safe : IsSafe world.fnmatch allowed_paths (some actual) claimed valid
    pub completes : valid.status ≡ lit "complete"

  report_of-complete :
      (r : Res (WorkerEvidence × List Text)) (v : Verification)
      → report_of world r ≡ ok v
      → v.complete ≡ true
      → (valid : WorkerEvidence) × (actual : List Text) × (r ≡ ok (valid, actual))
        × (valid.status ≡ lit "complete")
  report_of-complete (ok (valid, actual)) v h c = (
    valid,
    actual,
    refl,
    (==_iff valid.status (lit "complete")).0
        (ap (λ (x : Verification). x.complete) (ok-injective h) ∙ c),
  )
  report_of-complete (err e) v h c = absurd (ground arith)

  verify-IsVerified :
      (request : ExecutionAttemptInput) (stdout : Text) (v : Verification)
      → verify_execution_activity world request (record {
        cwd = request.task.cwd;
        base_ref = request.task.base_ref;
        allowed_paths = request.task.allowed_paths;
        stdout = stdout;
      })
        ≡ ok v
      → v.complete ≡ true
      → IsVerified request stdout request.task.allowed_paths request.task.base_ref
  unfolding verify_execution_activity verified_report
  verify-IsVerified request stdout v h c =
      let (valid, actual, e, says) = report_of-complete _ v h c in
      let (claimed, read, h₁) = >>=-eq-ok (parse_worker_result world.decode stdout) _ e in
      let (changed, paths, h₂) =
        >>=-eq-ok
          (git_changed_paths (world.is_dir request request.task.cwd)
            (world.git request request.task.cwd) request.task.base_ref)
          _ h₁ in
      let (verified, validated, h₃) =
        >>=-eq-ok
          (validate_evidence world.fnmatch claimed request.task.allowed_paths (some changed)) _
          h₂ in
      let same = ap (λ (x : WorkerEvidence × List Text). x.0) (ok-injective h₃) in
      record {
        claimed = claimed;
        valid = verified;
        actual = changed;
        read = read;
        changed = paths;
        safe =
            validate_evidence-IsSafe world.fnmatch claimed verified request.task.allowed_paths
              (some changed) validated;
        completes = ap (λ (x : WorkerEvidence). x.status) same ∙ says;
      }

  -- The probabilities of a ready result are at least the threshold of its class.
  assess-ready :
      (request : ResultDecisionInput) (view : ResultView)
      → assess_result_activity world request ≡ ok view
      → view.integration_ready ≡ true
      → (auto_threshold default_policy request.risk_class ≤ℤ view.semantic_complete_probability)
        × (auto_threshold default_policy request.risk_class ≤ℤ view.evidence_sufficient_probability)
        × (request.return_code ≡ pos 0)
  unfolding assess_result_activity
  assess-ready request view h ready =
      let (assessment, assessed, h₁) =
        >>=-eq-ok (assess_result world.engine default_policy _) _ h in
      let same = ok-injective h₁ in
      let (risk, valid, grounded) =
        assess_result-IsGrounded world.engine default_policy _ assessed in
      let risk_same = ok-injective (sym valid ∙ validate_risk-label request.risk_class) in
      let r = ap (λ (x : ResultView). x.integration_ready) same ∙ ready in
      let at =
        λ (f : ResultView → ℤ)
            (low : auto_threshold default_policy risk ≤ℤ f (view_of world assessment)).
          subst (λ (v : ResultView). auto_threshold default_policy request.risk_class ≤ℤ f v) same
            (subst (λ (c : Risk). auto_threshold default_policy c ≤ℤ f (view_of world assessment))
              risk_same low) in
      (
        at (λ (v : ResultView). v.semantic_complete_probability) (grounded.semantic r),
        at (λ (v : ResultView). v.evidence_sufficient_probability) (grounded.sufficient r),
        grounded.exited r,
      )

  -- What an attempt of a child stands on that is ready.
  pub record IsProven (task : TaskRunInput) (a : TaskAssessment) (x : AttemptResult) : Type 0 where
    pub request : ExecutionAttemptInput
    pub exited : x.return_code ≡ pos 0
    pub verified : IsVerified request x.stdout task.allowed_paths task.base_ref
    pub semantic :
        auto_threshold default_policy a.final_risk
        ≤ℤ x.result_assessment.semantic_complete_probability
    pub sufficient :
        auto_threshold default_policy a.final_risk
        ≤ℤ x.result_assessment.evidence_sufficient_probability

  run_child-ready :
      (request : ExecutionAttemptInput)
      → is_ready (run_child (worker_activities world) request) ≡ true
      → run_attempt (worker_activities world) request
        ≡ ok (run_child (worker_activities world) request)
  unfolding run_child is_ready failed_attempt
  run_child-ready request h = go (run_attempt (worker_activities world) request) h
    where
      chosen : Res AttemptResult → AttemptResult
      chosen r = elim r [
        | ok attempt ↦ attempt
        | err e ↦ failed_attempt request.provider ((worker_activities world).child_failure e)
      ]

      go : (r : Res AttemptResult) → is_ready (chosen r) ≡ true → r ≡ ok (chosen r)
      go (ok attempt) ready = refl
      go (err e) ready = absurd cc

  attempt-IsProven :
      (task : TaskRunInput) (a : TaskAssessment) (request : ExecutionAttemptInput) (effort : Text)
      (x : AttemptResult)
      → request.task ≡ record task { reasoning_effort = effort }
      → request.risk_class ≡ a.final_risk
      → run_attempt (worker_activities world) request ≡ ok x
      → is_ready x ≡ true
      → IsProven task a x
  unfolding run_attempt worker_activities is_ready
  attempt-IsProven task a request effort x of_task risk h ready =
      let (outcome, _, h₁) = >>=-eq-ok (run_execution_activity world request) _ h in
      let (v, verifies, h₂) = >>=-eq-ok (verify_execution_activity world request _) _ h₁ in
      let (view, assesses, h₃) = >>=-eq-ok (assess_result_activity world _) _ h₂ in
      let same = ok-injective h₃ in
      let ready' = ap is_ready same ∙ ready in
      let (semantic, sufficient, exited) = assess-ready _ view assesses (ground arith) in
      let verified = verify-IsVerified request outcome.stdout v verifies (ground arith) in
      subst (IsProven task a) same (record {
        request = request;
        exited = exited;
        verified =
            subst
              (λ (q : TaskRunInput). IsVerified request outcome.stdout q.allowed_paths q.base_ref)
              of_task verified;
        semantic =
            subst
              (λ (c : Risk). auto_threshold default_policy c ≤ℤ view.semantic_complete_probability)
              risk semantic;
        sufficient =
            subst
              (λ (c : Risk).
                auto_threshold default_policy c ≤ℤ view.evidence_sufficient_probability)
              risk sufficient;
      })

  -- If `run` with the worker's activities completes a task, then one of the attempts of the result is
  -- the selected one, exited with 0, and its report was parsed, compared with the changes that git
  -- names and found safe for the task's allowed paths, and says complete; and both probabilities of its
  -- assessment are at least the threshold of the class that the task was assessed at.
  pub run-IsProven :
      (task : TaskRunInput) (s s' : Session) (t : TaskRunResult)
      → run (worker_activities world) task s ≡ (returned t, s')
      → t.status ≡ complete
      → (a : TaskAssessment) × (assess_task_activity world task ≡ ok a)
        × (best : AttemptResult) × Memb best t.attempts
        × (t.selected_provider ≡ some best.provider)
        × IsProven task a best
  unfolding worker_activities
  run-IsProven task s s' t h done =
      let (a, assessed, sound) = run-Sound (worker_activities world) task s s' t h in
      let (b, assessed_too, children) = run-IsChild (worker_activities world) task s s' t h in
      let c = sound.completed done in
      let child = children c.best c.listed in
      let same = ok-injective (sym assessed_too ∙ assessed) in
      let runs = run_child-ready child.request (ap is_ready (sym child.ran) ∙ c.ready) in
      (
        a,
        assessed,
        c.best,
        c.listed,
        c.selected,
        attempt-IsProven task a child.request child.effort c.best child.of_task
            (child.risk ∙ ap (λ (x : TaskAssessment). x.final_risk) same)
            (runs ∙ ap ok (sym child.ran)) c.ready,
      )
