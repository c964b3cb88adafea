-- ===== src/Workflow/Decided.antt =====
-- What a decision of the workflow loop leaves as it was.
use durable_threads.Prelude.{Text, some, ◌≡◌, inl, inr, arith, Bool-cases, if◌then◌else◌}
use durable_threads.Risk.{Risk}
use durable_threads.Intelligence.{TaskAssessment}
use durable_threads.Contracts.{rejected, review_required, complete, Status, AttemptResult}
use durable_threads.Session.{wait_for_review, Session, returned, then_do-returned}
use durable_threads.Workflow.{
  intervention_of, is_ready, Loop, again, leave, decide, result, intervene, ask, stop_with,
}
use durable_threads.Workflow.Outcomes.{ask_not_again}

module _ (a : TaskAssessment) (risk : Risk) (l : Loop) (best : AttemptResult) where
  ask_not_leave :
      (status : Status) (s s' : Session) (l' : Loop)
      → ask a risk l best status s ≡ (returned (leave l'), s')
      → ⊥
  unfolding ask stop_with result
  ask_not_leave status s s' l' h = elim (Bool-cases l.task.wait_for_human_review) [
    | inl waits ↦
        let (d, s₁, _, h₁) =
          then_do-returned (wait_for_review s)
            (λ d. stop_with a risk l best (if d.approved then status else rejected) (some d.note))
            (simp waits at h) in
        ground arith
    | inr goes_on ↦ ground arith
  ]

  intervene_not_leave :
      (intervention : Text) (s s' : Session) (l' : Loop)
      → intervene a risk l best intervention s ≡ (returned (leave l'), s')
      → ⊥
  unfolding intervene stop_with result
  intervene_not_leave intervention s s' l' h =
      ground (arith, ask_not_leave (if is_ready best then complete else review_required) s s' l')

  pub decide_not_leave :
      (s s' : Session) (l' : Loop) → decide a risk l best s ≡ (returned (leave l'), s') → ⊥
  unfolding decide stop_with result
  decide_not_leave s s' l' h = ground (
    arith,
    ask_not_leave complete s s' l',
    intervene_not_leave (intervention_of a risk best) s s' l',
  )

  -- A round that goes on changes the task in its effort at most.
  intervene-task :
      (intervention : Text) (s s' : Session) (l' : Loop)
      → intervene a risk l best intervention s ≡ (returned (again l'), s')
      → l'.task ≡ record l.task { reasoning_effort = l'.task.reasoning_effort }
  unfolding intervene stop_with result
  intervene-task intervention s s' l' h = ground (
    arith,
    ask_not_again a risk l best (if is_ready best then complete else review_required) s s' l',
  )

  pub decide-task :
      (s s' : Session) (l' : Loop)
      → decide a risk l best s ≡ (returned (again l'), s')
      → l'.task ≡ record l.task { reasoning_effort = l'.task.reasoning_effort }
  unfolding decide stop_with result
  decide-task s s' l' h = ground (
    arith,
    ask_not_again a risk l best complete s s' l',
    intervene-task (intervention_of a risk best) s s' l',
  )
