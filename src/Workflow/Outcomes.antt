-- ===== src/Workflow/Outcomes.antt =====
-- What one decision of the workflow loop returns, branch by branch.
use durable_threads.Prelude.{
  inr, none, lit, ◌==◌, ◌&&◌, ◌||◌, not, inl, Bool-cases, Text, Bool, true, false, Option, some,
  List, [], ◌∷◌, ◌≡◌, ◌⊎◌, ◌≢◌, arith, if◌then◌else◌,
}
use durable_threads.Risk.{Risk}
use durable_threads.Intelligence.{completion_gate, TaskAssessment}
use durable_threads.Contracts.{
  review_required, AttemptResult, ReviewDecision, TaskRunResult, Status, complete, rejected, failed,
}
use durable_threads.Session.{
  ended, wait_for_review-inbox, wait_for_review, then_do-returned, Session, returned,
}
use durable_threads.Workflow.{
  Loop, stop, again, is_ready, ask, stop_with, intervene, decide, intervention_of, result,
}

-- A reviewer among those still to come approves, or refuses.
abbrev pub approvals : List ReviewDecision → Bool
approvals [] = false
approvals (d ∷ ds) = d.approved || approvals ds

abbrev pub refusals : List ReviewDecision → Bool
refusals [] = false
refusals (d ∷ ds) = not d.approved || refusals ds

-- What the result of a round says of the attempt that ranked highest.
pub record Stopped (a : TaskAssessment) (l : Loop) (best : AttemptResult)
    (inbox : List ReviewDecision) (t : TaskRunResult) (s' : Session) : Type 0 where
  pub phase : s'.state.phase ≡ ended t.status
  pub attempts : t.attempts ≡ l.attempts
  pub provider : t.selected_provider ≡ some best.provider
  pub ready : t.status ≡ complete → is_ready best ≡ true
  pub allowed :
      t.status ≡ complete
      → (approvals inbox ≡ true) ⊎ ((a.review_required ≡ false) × (best.review_required ≡ false))
  pub refused : t.status ≡ rejected → refusals inbox ≡ true
  pub not_failed : t.status ≢ failed

module _ (a : TaskAssessment) (risk : Risk) (l : Loop) (best : AttemptResult) where
  stop_with-Stopped :
      (status : Status) (message : Option Text) (inbox : List ReviewDecision) (s s' : Session)
      (t : TaskRunResult)
      → stop_with a risk l best status message s ≡ (returned (stop t), s')
      → (status ≡ complete → is_ready best ≡ true)
      → (status ≡ complete
          → (approvals inbox ≡ true)
            ⊎ ((a.review_required ≡ false) × (best.review_required ≡ false)))
      → (status ≡ rejected → refusals inbox ≡ true)
      → status ≢ failed
      → Stopped a l best inbox t s'
  unfolding stop_with result
  stop_with-Stopped status message inbox s s' t h p q r f = record {
    phase = ground arith;
    attempts = ground arith;
    provider = ground arith;
    ready = ground arith;
    allowed = ground arith;
    refused = ground arith;
    not_failed = ground arith;
  }

  reviewed-Stopped :
      (status : Status) (d : ReviewDecision) (rest inbox : List ReviewDecision) (s s' : Session)
      (t : TaskRunResult)
      → inbox ≡ d ∷ rest
      → stop_with a risk l best (if d.approved then status else rejected) (some d.note) s
        ≡ (returned (stop t), s')
      → (status ≡ complete → is_ready best ≡ true)
      → status ≢ rejected
      → status ≢ failed
      → Stopped a l best inbox t s'
  reviewed-Stopped status d rest inbox s s' t taken h ready r f =
      stop_with-Stopped (if d.approved then status else rejected) (some d.note) inbox s s' t h
        (ground arith) (rw taken (ground arith)) (rw taken (ground arith)) (ground arith)

  -- An approval gives the status that was asked for, a refusal REJECTED, and no wait REVIEW_REQUIRED.
  ask-Stopped :
      (status : Status) (s s' : Session) (t : TaskRunResult)
      → ask a risk l best status s ≡ (returned (stop t), s')
      → (status ≡ complete → is_ready best ≡ true)
      → status ≢ rejected
      → status ≢ failed
      → Stopped a l best s.inbox t s'
  unfolding ask
  ask-Stopped status s s' t h ready r f = elim (Bool-cases l.task.wait_for_human_review) [
    | inl waits ↦
        let (d, s₁, waited, h₁) =
          then_do-returned (wait_for_review s)
            (λ d. stop_with a risk l best (if d.approved then status else rejected) (some d.note))
            (simp waits at h) in
        reviewed-Stopped status d s₁.inbox s.inbox s₁ s' t (wait_for_review-inbox s d s₁ waited) h₁
          ready r f
    | inr goes_on ↦
        stop_with-Stopped review_required none s.inbox s s' t (simp goes_on at h) (λ e. cc)
          (λ e. cc) (λ e. cc) (λ e. cc)
  ]

  intervene-Stopped :
      (intervention : Text) (s s' : Session) (t : TaskRunResult)
      → intervene a risk l best intervention s ≡ (returned (stop t), s')
      → Stopped a l best s.inbox t s'
  unfolding intervene
  intervene-Stopped intervention s s' t h = elim (Bool-cases (intervention == lit "human_review")) [
    | inl human ↦
        ask-Stopped (if is_ready best then complete else review_required) s s' t (ground arith)
          (ground arith) (ground arith) (ground arith)
    | inr other ↦
        stop_with-Stopped review_required none s.inbox s s' t (ground arith) (λ e. cc) (λ e. cc)
          (λ e. cc) (λ e. cc)
  ]

  -- The result of a decision, whatever the best attempt says.
  pub decide-Stopped :
      (s s' : Session) (t : TaskRunResult)
      → decide a risk l best s ≡ (returned (stop t), s')
      → Stopped a l best s.inbox t s'
  unfolding decide completion_gate
  decide-Stopped s s' t h =
      elim (Bool-cases (is_ready best && not (a.review_required || best.review_required))) [
        | inl free ↦
            stop_with-Stopped complete none s.inbox s s' t (ground arith) (ground arith)
              (ground arith) (λ e. cc) (λ e. cc)
        | inr held ↦ elim (Bool-cases (is_ready best)) [
          | inl ready ↦ ask-Stopped complete s s' t (ground arith) (λ _. ready) (λ e. cc) (λ e. cc)
          | inr unready ↦ intervene-Stopped (intervention_of a risk best) s s' t (ground arith)
        ]
      ]

  pub ask_not_again :
      (status : Status) (s s' : Session) (l' : Loop)
      → ask a risk l best status s ≡ (returned (again l'), s')
      → ⊥
  unfolding ask stop_with result
  ask_not_again status s s' l' h = elim (Bool-cases l.task.wait_for_human_review) [
    | inl waits ↦
        let (d, s₁, _, h₁) =
          then_do-returned (wait_for_review s)
            (λ d. stop_with a risk l best (if d.approved then status else rejected) (some d.note))
            (simp waits at h) in
        ground arith
    | inr goes_on ↦ ground arith
  ]

  intervene-again :
      (intervention : Text) (s s' : Session) (l' : Loop)
      → intervene a risk l best intervention s ≡ (returned (again l'), s')
      → (s' ≡ s) × (l'.attempts ≡ l.attempts)
  unfolding intervene stop_with result
  intervene-again intervention s s' l' h = (
    ground (arith, ask_not_again (if is_ready best then complete else review_required) s s' l'),
    ground (arith, ask_not_again (if is_ready best then complete else review_required) s s' l'),
  )

  -- A round that goes on has taken no review and kept its attempts.
  pub decide-again :
      (s s' : Session) (l' : Loop)
      → decide a risk l best s ≡ (returned (again l'), s')
      → (s' ≡ s) × (l'.attempts ≡ l.attempts)
  unfolding decide stop_with result
  decide-again s s' l' h = (
    ground (
      arith,
      ask_not_again complete s s' l',
      intervene-again (intervention_of a risk best) s s' l',
    ),
    ground (
      arith,
      ask_not_again complete s s' l',
      intervene-again (intervention_of a risk best) s s' l',
    ),
  )
