-- ===== src/Workflow/Progress.antt =====
-- The rounds and the waits of DurableTaskWorkflow.run in src/durable_threads/temporal_workflows.py.
use durable_threads.Workflow.Turns.{IsFinished, raises, returns, session, rounds-IsFinished}
use durable_threads.Prelude.{
  Bool, true, false, none, some, List, [], ◌∷◌, ◌≡◌, refl, arith, ok, err, pos_part, if◌then◌else◌,
}
use durable_threads.Errors.{Res}
use durable_threads.Risk.{Risk}
use durable_threads.Intelligence.{TaskAssessment}
use durable_threads.Contracts.{TaskRunInput, ReviewDecision, TaskRunResult, rejected}
use durable_threads.Attempt.{Activities}
use durable_threads.Session.{
  WorkflowState, Workflow, wait_for_review, begin_wait, resume, signal, then_do, activity, initial,
  assessing,
}
use durable_threads.Workflow.{start_loop, after_gate, gated, run, result}

module _ (activities : Activities) (task : TaskRunInput) (a : TaskAssessment) (risk : Risk) where
  start_loop-IsFinished :
      (w : WorkflowState) (d : ReviewDecision) (ds : List ReviewDecision)
      → w.round ≡ 0
      → IsFinished
          (pos_part task.max_attempts)
          (start_loop a risk activities task (session w (d ∷ ds)))
  unfolding start_loop
  start_loop-IsFinished w d ds zeroth =
      rounds-IsFinished a risk (pos_part task.max_attempts) activities a.execution_shape
        (pos_part task.max_attempts) 1 _ w d ds (omega (arith, zeroth)) (omega arith)

  gated-IsFinished :
      (w : WorkflowState) (d e : ReviewDecision) (ds : List ReviewDecision)
      → w.round ≡ 0
      → IsFinished
          (pos_part task.max_attempts)
          (gated a risk activities task (session w (d ∷ e ∷ ds)))
  unfolding gated after_gate wait_for_review begin_wait resume signal result
  gated-IsFinished w d e ds zeroth = at_gate a.human_gate_required
    where
      Done : Workflow TaskRunResult → Type 0
      Done p = IsFinished (pos_part task.max_attempts) (p (session w (d ∷ e ∷ ds)))

      approved :
          (w' : WorkflowState) (b : Bool)
          → w'.round ≡ 0
          → IsFinished (pos_part task.max_attempts) (
              (if b
                  then start_loop a risk activities task
                  else result rejected risk a [] none (some d.note))
                (session w' (e ∷ ds)))
      approved w' true z = start_loop-IsFinished w' e ds z
      approved w' false z = returns (omega (arith, z))

      at_gate :
          (b : Bool)
          → Done (
              if b
              then (λ s.
                  then_do
                    (wait_for_review s)
                    (λ decision. after_gate a risk activities task decision))
              else start_loop a risk activities task)
      at_gate true = approved _ d.approved zeroth
      at_gate false = start_loop-IsFinished w d (e ∷ ds) zeroth

-- A workflow that starts and has two reviews to come, or more, never waits for another: it returns or
-- raises, after no more rounds than the attempts that the task allows.
pub run-IsFinished :
    (activities : Activities) (task : TaskRunInput) (d e : ReviewDecision)
    (ds : List ReviewDecision)
    → IsFinished
        (pos_part task.max_attempts)
        (run activities task (record { state = initial; inbox = d ∷ e ∷ ds }))
unfolding run
run-IsFinished activities task d e ds = assessed (activities.assess_task task)
  where
    assessed :
        (r : Res TaskAssessment)
        → IsFinished (pos_part task.max_attempts) (
            then_do
              (activity r (session (record initial { phase = assessing }) (d ∷ e ∷ ds)))
              (λ a s.
                gated a a.final_risk activities task
                  (record s { state = record s.state { risk = some a.final_risk } })))
    assessed (ok a) = gated-IsFinished activities task a a.final_risk _ d e ds refl
    assessed (err x) = raises (omega arith)
