-- ===== src/Session.antt =====
-- The fields of DurableTaskWorkflow in src/durable_threads/temporal_workflows.py, its signal, its
-- query and its wait. They are a record that is passed along; a `Workflow` returns, raises, or waits
-- for a review that has not come. Cancellation is left out.
use durable_threads.Prelude.{
  ℕ, Text, Bool, true, false, ◌≡◌, refl, arith, Option, none, some, List, [], ◌∷◌, ok, err,
}
use durable_threads.Errors.{Error, Res}
use durable_threads.Risk.{Risk}
use durable_threads.Contracts.{ReviewDecision, Status}

pub data Phase : Type 0 where
  created assessing routing executing waiting_for_human_review : Phase
  ended : Status → Phase

pub record WorkflowState : Type 0 where
  pub phase : Phase
  pub risk : Option Risk
  pub round : ℕ
  pub active_providers : List Text
  pub review_decision : Option ReviewDecision

-- `__init__`.
abbrev pub initial : WorkflowState
initial = record {
  phase = created;
  risk = none;
  round = 0;
  active_providers = [];
  review_decision = none;
}

-- The signal `review`.
unfoldable pub signal : ReviewDecision → WorkflowState → WorkflowState
signal decision s = record s { review_decision = some decision }

abbrev is_waiting : Phase → Bool
is_waiting waiting_for_human_review = true
is_waiting _ = false

pub record StatusView : Type 0 where
  pub phase : Phase
  pub risk : Option Risk
  pub round : ℕ
  pub active_providers : List Text
  pub review_pending : Bool

-- The query `status`.
unfoldable pub status : WorkflowState → StatusView
status s = record {
  phase = s.phase;
  risk = s.risk;
  round = s.round;
  active_providers = s.active_providers;
  review_pending = is_waiting s.phase;
}

-- The reviews still to come: each is the decision that stands when a waiting workflow resumes.
pub record Session : Type 0 where
  pub state : WorkflowState
  pub inbox : List ReviewDecision

pub data Reply {ℓ} (A : Type ℓ) : Type ℓ where
  returned : A → Reply A
  raised : Error → Reply A
  blocked : Reply A

abbrev pub Workflow {ℓ} : Type ℓ → Type ℓ
Workflow A = Session → Reply A × Session

abbrev pub then_do {ℓ κ} :
    {A : Type ℓ} {B : Type κ} → Reply A × Session → (A → Workflow B) → Reply B × Session
then_do (returned a, s) f = f a s
then_do (raised e, s) f = (raised e, s)
then_do (blocked, s) f = (blocked, s)

infixl 5 ◌>>=◌ ◌>>◌
abbrev pub ◌>>=◌ {ℓ κ} : {A : Type ℓ} {B : Type κ} → Workflow A → (A → Workflow B) → Workflow B
◌>>=◌ m f s = then_do (m s) f

abbrev pub ◌>>◌ {ℓ} : {B : Type ℓ} → Workflow (Unit {0}) → Workflow B → Workflow B
m >> k = m >>= λ _. k

abbrev pub return {ℓ} : {A : Type ℓ} → A → Workflow A
return a s = (returned a, s)

abbrev pub modify : (WorkflowState → WorkflowState) → Workflow (Unit {0})
modify f s = (returned tt, record s { state = f s.state })

-- The result of an activity, or its exception.
abbrev pub activity {ℓ} : {A : Type ℓ} → Res A → Workflow A
activity (ok a) s = (returned a, s)
activity (err e) s = (raised e, s)

-- `_wait_for_review` up to the wait, and from the moment that a decision is there.
unfoldable pub begin_wait : WorkflowState → WorkflowState
begin_wait s = record s { phase = waiting_for_human_review; review_decision = none }

unfoldable pub resume :
    Option ReviewDecision → WorkflowState → Option ReviewDecision × WorkflowState
resume none s = (none, s)
resume (some decision) s = (some decision, record s { review_decision = none })

abbrev woken :
    List ReviewDecision → Option ReviewDecision × WorkflowState → Reply ReviewDecision × Session
woken ds (some decision, s) = (returned decision, record { state = s; inbox = ds })
woken ds (none, s) = (blocked, record { state = s; inbox = ds })

abbrev deliver : List ReviewDecision → WorkflowState → Reply ReviewDecision × Session
deliver [] s = (blocked, record { state = s; inbox = [] })
deliver (d ∷ ds) s = woken ds (resume (signal d s).review_decision (signal d s))

unfoldable pub wait_for_review : Workflow ReviewDecision
unfolding begin_wait resume signal
wait_for_review s = deliver s.inbox (begin_wait s.state)

-- A chain that returned: its first part returned, and so did the rest from there.
pub then_do-returned {ℓ κ} :
    {A : Type ℓ} {B : Type κ} (p : Reply A × Session) (f : A → Workflow B) {b : B} {s' : Session}
    → then_do p f ≡ (returned b, s')
    → (a : A) × (s : Session) × (p ≡ (returned a, s)) × (f a s ≡ (returned b, s'))
then_do-returned (returned a, s) f h = (a, s, refl, h)
then_do-returned (raised e, s) f h = cc
then_do-returned (blocked, s) f h = cc

pub activity-then {ℓ κ} :
    {A : Type ℓ} {B : Type κ} (r : Res A) (f : A → Workflow B) (s : Session) {b : B} {s' : Session}
    → then_do (activity r s) f ≡ (returned b, s')
    → (a : A) × (r ≡ ok a) × (f a s ≡ (returned b, s'))
activity-then (ok a) f s h = (a, refl, h)
activity-then (err e) f s h = cc

deliver-returned :
    (ds : List ReviewDecision) (s : WorkflowState) (d : ReviewDecision) (s' : Session)
    → deliver ds s ≡ (returned d, s')
    → ds ≡ d ∷ s'.inbox
unfolding resume signal
deliver-returned [] s d s' h = cc
deliver-returned (e ∷ ds) s d s' h = ground arith

-- A wait that is over has taken the first of the reviews still to come.
pub wait_for_review-inbox :
    (s : Session) (d : ReviewDecision) (s' : Session)
    → wait_for_review s ≡ (returned d, s')
    → s.inbox ≡ d ∷ s'.inbox
unfolding wait_for_review
wait_for_review-inbox s d s' h = deliver-returned s.inbox (begin_wait s.state) d s' h
