-- ===== src/Workflow.antt =====
-- DurableTaskWorkflow of src/durable_threads/temporal_workflows.py: decide, route, execute, verify,
-- escalate.
pub mod Turns
pub mod Outcomes
pub mod Soundness
pub mod Decided
pub mod Provenance
pub mod Progress
pub mod Samples
use durable_threads.Prelude.{
  ℕ, zero, suc, ◌+◌, Text, lit, ◌==◌, contains, Bool, true, false, not, ◌&&◌, ◌||◌, Option, none,
  some, List, [], ◌∷◌, ◌++◌, ℤ, pos, pos_part, eq_ℤ, if◌then◌else◌, Result, ok, err,
}
use durable_threads.Errors.{Error, Res}
use durable_threads.Risk.{Risk}
use durable_threads.Intelligence.{TaskAssessment, Completion, completion_gate}
use durable_threads.Contracts.{
  TaskRunInput, RouteExecutorsInput, ExecutionAttemptInput, AttemptResult, ReviewDecision,
  TaskRunResult, Status, complete, rejected, review_required, failed, is_empty,
}
use durable_threads.Attempt.{Activities, run_child, best_of, stronger_effort}
use durable_threads.Session.{
  Phase, routing, executing, assessing, ended, WorkflowState, Session, Reply, returned, raised,
  blocked, Workflow, ◌>>=◌, ◌>>◌, return, modify, activity, wait_for_review,
}

module _ (activities : Activities) where
  -- The attempts of `providers`, whose positions do not matter to an executor.
  unfoldable pub run_all : TaskRunInput → Risk → Text → ℕ → List Text → List AttemptResult
  run_all task risk shape round [] = []
  run_all task risk shape round (p ∷ ps) =
      run_child activities (record {
        task = task;
        provider = p;
        risk_class = risk;
        attempt = pos round;
        execution_shape = shape;
      })
      ∷ run_all task risk shape round ps

  -- `_run_children`: the children run at once, and `gather` keeps their order.
  unfoldable pub run_children :
      TaskRunInput → Risk → Text → List Text → Workflow (List AttemptResult)
  run_children task risk shape providers s =
      let started = record s.state { active_providers = providers } in
      (
        returned (run_all task risk shape started.round providers),
        record s { state = record started { active_providers = [] } },
      )

-- `_result`.
unfoldable pub result :
    Status
    → Risk
    → TaskAssessment
    → List AttemptResult
    → Option Text
    → Option Text
    → Workflow TaskRunResult
result status risk assessment attempts provider note = do
  modify (λ s. record s { phase = ended status })
  return (record {
    status = status;
    final_risk = risk;
    selected_provider = provider;
    task_assessment = assessment;
    attempts = attempts;
    review_note = note;
  })

-- What one round of the loop hands to the next.
pub record Loop : Type 0 where
  pub task : TaskRunInput
  pub attempts : List AttemptResult
  pub excluded : List Text
  pub preferred : List Text

pub data Next : Type 0 where
  stop : TaskRunResult → Next
  leave : Loop → Next
  again : Loop → Next

-- The providers of the routes, each once.
unfoldable pub distinct : List Text → List Text → List Text
distinct seen [] = seen
distinct seen (p ∷ ps) = distinct (if contains p seen then seen else seen ++ p ∷ []) ps

abbrev pub truth : Completion → Bool
truth Completion.complete = true
truth _ = false

-- `integration_ready` of the best attempt of a round.
unfoldable pub is_ready : AttemptResult → Bool
is_ready best =
    best.result_assessment.integration_ready
    && best.verification.complete
    && eq_ℤ best.return_code (pos 0)

module _ (assessment : TaskAssessment) (risk : Risk) where
  unfoldable pub stop_with : Loop → AttemptResult → Status → Option Text → Workflow Next
  stop_with l best status note = do
    r ← result status risk assessment l.attempts (some best.provider) note
    return (stop r)

  -- A wait, if the task asks for one; `status` is that of an approval.
  unfoldable pub ask : Loop → AttemptResult → Status → Workflow Next
  ask l best status =
      if l.task.wait_for_human_review
      then (do
        decision ← wait_for_review
        stop_with l best (if decision.approved then status else rejected) (some decision.note))
      else stop_with l best review_required none

  -- `str(semantic.get("intervention") or "human_review")`.
  unfoldable pub intervention_of : AttemptResult → Text
  intervention_of best =
      if is_empty best.result_assessment.intervention
      then lit "human_review"
      else best.result_assessment.intervention

  unfoldable pub intervene : Loop → AttemptResult → Text → Workflow Next
  intervene l best intervention =
      if intervention == lit "human_review"
      then ask l best (if is_ready best then complete else review_required)
      else if intervention == lit "switch_executor"
      then return (
          again (record l {
            excluded =
                if contains best.provider l.excluded
                then l.excluded
                else l.excluded ++ best.provider ∷ [];
            preferred = [];
          }))
      else if intervention == lit "correct_same"
      then return (again (record l { preferred = best.provider ∷ [] }))
      else if intervention == lit "stronger_model"
      then return (
          again (record l {
            task = record l.task { reasoning_effort = stronger_effort l.task.reasoning_effort };
            preferred = best.provider ∷ [];
          }))
      else stop_with l best review_required none

  -- What follows the children of a round, of which `best` ranks highest.
  unfoldable pub decide : Loop → AttemptResult → Workflow Next
  decide l best =
      let ready = is_ready best in
      if truth (completion_gate ready assessment.review_required best.review_required false)
      then stop_with l best complete none
      else if ready && (assessment.review_required || best.review_required)
      then ask l best complete
      else intervene l best (intervention_of best)

  abbrev pub first_best : Loop → List AttemptResult → Workflow Next
  first_best l [] = λ s. (raised (Error.value_error "max() arg is an empty sequence"), s)
  first_best l (a ∷ rest) =
      decide (record l { attempts = l.attempts ++ (a ∷ rest) }) (best_of a rest)

  module _ (activities : Activities) (shape : Text) where
    abbrev pub execute : Loop → List Text → Workflow Next
    execute l [] = return (leave l)
    execute l (p ∷ ps) = do
      modify (λ s. record s { phase = executing })
      current ← run_children activities l.task risk shape (p ∷ ps)
      first_best l current

    abbrev pub routes_of : ℕ → Loop → Res (List Text)
    routes_of index l = activities.route_executors index (record {
      task = l.task;
      assessment = assessment;
      excluded_providers = l.excluded;
      preferred_providers = l.preferred;
    })

    abbrev pub routing_at : ℕ → WorkflowState → WorkflowState
    routing_at index s = record s { round = index; phase = routing }

    unfoldable pub one_round : ℕ → Loop → Workflow Next
    one_round index l = do
      modify (routing_at index)
      routes ← activity (routes_of index l)
      execute l (distinct [] routes)

    abbrev pub selected : List AttemptResult → Option Text
    selected [] = none
    selected (a ∷ rest) = some (best_of a rest).provider

    unfoldable pub give_up : Loop → Workflow TaskRunResult
    give_up l = result failed risk assessment l.attempts (selected l.attempts) none

    -- After a round: its result, the way out of the loop, or the rounds that are left.
    abbrev pub follow : (Loop → Workflow TaskRunResult) → Next → Workflow TaskRunResult
    follow rest (stop r) = return r
    follow rest (leave l) = give_up l
    follow rest (again l) = rest l

    -- The `for` loop, with the number of rounds that are left.
    unfoldable pub rounds : ℕ → ℕ → Loop → Workflow TaskRunResult
    rounds zero index l = give_up l
    rounds (suc n) index l = do next ← one_round index l; follow (rounds n (suc index)) next

  unfoldable pub start_loop : Activities → TaskRunInput → Workflow TaskRunResult
  start_loop activities task =
      rounds activities assessment.execution_shape (pos_part task.max_attempts) 1
        (record { task = task; attempts = []; excluded = []; preferred = task.preferred_providers })

  -- The decision of the gate's reviewer.
  unfoldable pub after_gate : Activities → TaskRunInput → ReviewDecision → Workflow TaskRunResult
  after_gate activities task decision =
      if decision.approved
      then start_loop activities task
      else result rejected risk assessment [] none (some decision.note)

  -- The gate before the first round.
  unfoldable pub gated : Activities → TaskRunInput → Workflow TaskRunResult
  gated activities task =
      if assessment.human_gate_required
      then (do decision ← wait_for_review; after_gate activities task decision)
      else start_loop activities task

unfoldable pub run : Activities → TaskRunInput → Workflow TaskRunResult
run activities task = do
  modify (λ s. record s { phase = assessing })
  assessment ← activity (activities.assess_task task)
  modify (λ s. record s { risk = some assessment.final_risk })
  gated assessment assessment.final_risk activities task
