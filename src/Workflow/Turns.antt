-- ===== src/Workflow/Turns.antt =====
-- One round of DurableTaskWorkflow.run in src/durable_threads/temporal_workflows.py, which does not wait
-- while reviews are to come.
use durable_threads.Prelude.{
  ℕ, zero, suc, ◌+◌, ◌≤◌, Text, lit, ◌==◌, Bool, true, false, ◌&&◌, ◌||◌, Option, none, some, List,
  [], ◌∷◌, ◌≡◌, refl, sym, subst, arith, ok, err, if◌then◌else◌,
}
use durable_threads.Errors.{Error, Res}
use durable_threads.Risk.{Risk}
use durable_threads.Intelligence.{TaskAssessment, completion_gate}
use durable_threads.Contracts.{
  AttemptResult, ReviewDecision, TaskRunResult, Status, complete, rejected, review_required,
}
use durable_threads.Attempt.{Activities}
use durable_threads.Session.{
  Session, WorkflowState, Reply, returned, raised, Workflow, wait_for_review, begin_wait, resume,
  signal, then_do, activity,
}
use durable_threads.Workflow.{
  Loop, Next, stop, leave, again, is_ready, stop_with, ask, intervene, intervention_of, decide,
  first_best, execute, one_round, routes_of, distinct, give_up, follow, rounds, run_children,
  run_all, result, routing_at, truth,
}

-- A workflow that is not waiting, in a round up to a bound.
pub data IsFinished {ℓ} {A : Type ℓ} (bound : ℕ) : Reply A × Session → Type ℓ where
  returns : {a : A} {s : Session} → s.state.round ≤ bound → IsFinished bound (returned a, s)
  raises : {e : Error} {s : Session} → s.state.round ≤ bound → IsFinished bound (raised e, s)

-- One round that is not waiting: where it does not end the workflow, it has used up no review.
data IsRound (bound : ℕ) (inbox : List ReviewDecision) : Reply Next × Session → Type 0 where
  stops :
      {t : TaskRunResult} {s : Session}
      → s.state.round ≤ bound
      → IsRound bound inbox (returned (stop t), s)
  leaves :
      {l : Loop} {s : Session} → s.state.round ≤ bound → IsRound bound inbox (returned (leave l), s)
  goes_on :
      {l : Loop} {s : Session}
      → s.state.round ≤ bound
      → s.inbox ≡ inbox
      → IsRound bound inbox (returned (again l), s)
  fails : {e : Error} {s : Session} → s.state.round ≤ bound → IsRound bound inbox (raised e, s)

abbrev pub session : WorkflowState → List ReviewDecision → Session
session w inbox = record { state = w; inbox = inbox }

module _ (a : TaskAssessment) (risk : Risk) (bound : ℕ) where
  stop_with-IsRound :
      (l : Loop) (best : AttemptResult) (status : Status) (message : Option Text) (s : Session)
      (inbox : List ReviewDecision)
      → s.state.round ≤ bound
      → IsRound bound inbox (stop_with a risk l best status message s)
  unfolding stop_with result
  stop_with-IsRound l best status message s inbox h = stops h

  ask-IsRound :
      (l : Loop) (best : AttemptResult) (status : Status) (w : WorkflowState) (d : ReviewDecision)
      (ds : List ReviewDecision)
      → w.round ≤ bound
      → IsRound bound (d ∷ ds) (ask a risk l best status (session w (d ∷ ds)))
  unfolding ask wait_for_review begin_wait resume signal
  ask-IsRound l best status w d ds h = asked l.task.wait_for_human_review
    where
      asked :
          (b : Bool)
          → IsRound bound (d ∷ ds) (
              (if b
                  then (λ s. then_do (wait_for_review s) (λ decision.
                      stop_with a risk l best
                        (if decision.approved then status else rejected)
                        (some decision.note)))
                  else stop_with a risk l best review_required none)
                (session w (d ∷ ds)))
      asked true = stop_with-IsRound l best _ _ _ (d ∷ ds) h
      asked false = stop_with-IsRound l best _ _ _ (d ∷ ds) h

  abbrev Rounds : List ReviewDecision → WorkflowState → Workflow Next → Type 0
  Rounds inbox w p = IsRound bound inbox (p (session w inbox))

  if-IsRound :
      (b : Bool) (p q : Workflow Next) (inbox : List ReviewDecision) (w : WorkflowState)
      → Rounds inbox w p
      → Rounds inbox w q
      → Rounds inbox w (if b then p else q)
  if-IsRound true p q inbox w x y = x
  if-IsRound false p q inbox w x y = y

  intervene-IsRound :
      (l : Loop) (best : AttemptResult) (intervention : Text) (w : WorkflowState)
      (d : ReviewDecision) (ds : List ReviewDecision)
      → w.round ≤ bound
      → IsRound bound (d ∷ ds) (intervene a risk l best intervention (session w (d ∷ ds)))
  unfolding intervene
  intervene-IsRound l best intervention w d ds h =
      if-IsRound (intervention == lit "human_review") _ _ (d ∷ ds) w
        (ask-IsRound l best (if is_ready best then complete else review_required) w d ds h)
        (if-IsRound (intervention == lit "switch_executor") _ _ (d ∷ ds) w (goes_on h refl) (
          if-IsRound (intervention == lit "correct_same") _ _ (d ∷ ds) w (goes_on h refl) (
            if-IsRound (intervention == lit "stronger_model") _ _ (d ∷ ds) w (goes_on h refl)
              (stop_with-IsRound l best review_required none (session w (d ∷ ds)) (d ∷ ds) h))))

  decide-IsRound :
      (l : Loop) (best : AttemptResult) (w : WorkflowState) (d : ReviewDecision)
      (ds : List ReviewDecision)
      → w.round ≤ bound
      → IsRound bound (d ∷ ds) (decide a risk l best (session w (d ∷ ds)))
  unfolding decide
  decide-IsRound l best w d ds h =
      if-IsRound
        (truth (completion_gate (is_ready best) a.review_required best.review_required false)) _ _
        (d ∷ ds) w (stop_with-IsRound l best complete none (session w (d ∷ ds)) (d ∷ ds) h)
        (if-IsRound (is_ready best && (a.review_required || best.review_required)) _ _ (d ∷ ds) w
          (ask-IsRound l best complete w d ds h)
          (intervene-IsRound l best (intervention_of a risk best) w d ds h))

  module _ (activities : Activities) (shape : Text) where
    first_best-IsRound :
        (l : Loop) (current : List AttemptResult) (w : WorkflowState) (d : ReviewDecision)
        (ds : List ReviewDecision)
        → w.round ≤ bound
        → IsRound bound (d ∷ ds) (first_best a risk l current (session w (d ∷ ds)))
    first_best-IsRound l [] w d ds h = fails h
    first_best-IsRound l (x ∷ rest) w d ds h = decide-IsRound _ _ w d ds h

    execute-IsRound :
        (l : Loop) (providers : List Text) (w : WorkflowState) (d : ReviewDecision)
        (ds : List ReviewDecision)
        → w.round ≤ bound
        → IsRound bound (d ∷ ds) (execute a risk activities shape l providers (session w (d ∷ ds)))
    unfolding run_children
    execute-IsRound l [] w d ds h = leaves h
    execute-IsRound l (p ∷ ps) w d ds h =
        first_best-IsRound l (run_all activities l.task risk shape w.round (p ∷ ps)) _ d ds h

    one_round-IsRound :
        (index : ℕ) (l : Loop) (w : WorkflowState) (d : ReviewDecision) (ds : List ReviewDecision)
        → index ≤ bound
        → IsRound bound (d ∷ ds) (one_round a risk activities shape index l (session w (d ∷ ds)))
    unfolding one_round
    one_round-IsRound index l w d ds h = routed (routes_of a risk activities shape index l)
      where
        routed :
            (r : Res (List Text))
            → IsRound bound (d ∷ ds) (
                then_do
                  (activity r (session (routing_at a risk activities shape index w) (d ∷ ds)))
                  (λ routes. execute a risk activities shape l (distinct [] routes)))
        routed (ok routes) = execute-IsRound l (distinct [] routes) _ d ds h
        routed (err e) = fails h

    give_up-IsFinished :
        (l : Loop) (s : Session)
        → s.state.round ≤ bound
        → IsFinished bound (give_up a risk activities shape l s)
    unfolding give_up result
    give_up-IsFinished l s h = returns h

    pub rounds-IsFinished :
        (n index : ℕ) (l : Loop) (w : WorkflowState) (d : ReviewDecision) (ds : List ReviewDecision)
        → w.round ≤ bound
        → index + n ≤ suc bound
        → IsFinished bound (rounds a risk activities shape n index l (session w (d ∷ ds)))
    unfolding rounds
    rounds-IsFinished zero index l w d ds h k = give_up-IsFinished l (session w (d ∷ ds)) h
    rounds-IsFinished (suc n) index l w d ds h k =
        after (one_round a risk activities shape index l (session w (d ∷ ds)))
          (one_round-IsRound index l w d ds (omega (arith, k)))
          (λ l' w' h'. rounds-IsFinished n (suc index) l' w' d ds h' (omega (arith, k)))
      where
        after :
            (out : Reply Next × Session)
            → IsRound bound (d ∷ ds) out
            → ((l' : Loop) (w' : WorkflowState)
                → w'.round ≤ bound
                → IsFinished bound
                    (rounds a risk activities shape n (suc index) l' (session w' (d ∷ ds))))
            → IsFinished bound (
                then_do out
                  (follow a risk activities shape (rounds a risk activities shape n (suc index))))
        after out (stops b) rest = returns b
        after out (leaves {l = l'} {s = s'} b) rest = give_up-IsFinished l' s' b
        after out (goes_on {l = l'} {s = s'} b e) rest =
            subst
              (λ inbox.
                IsFinished bound
                  (rounds a risk activities shape n (suc index) l' (session s'.state inbox)))
              (sym e) (rest l' s'.state b)
        after out (fails b) rest = raises b
