-- ===== src/Workflow/Soundness.antt =====
-- Whatever the activities answer and the reviewers say: what a result of the workflow stands on.
use durable_threads.Prelude.{
  ℕ, zero, suc, Text, true, false, some, List, [], ◌∷◌, ◌++◌, ◌≡◌, refl, sym, ◌⊎◌, inl, inr, arith,
  Bool-cases, Memb, Memb-append_right, ok, subst, ◌∙◌, ap,
}
use durable_threads.Risk.{Risk}
use durable_threads.Intelligence.{TaskAssessment}
use durable_threads.Contracts.{
  TaskRunInput, AttemptResult, ReviewDecision, TaskRunResult, complete, rejected,
}
use durable_threads.Attempt.{Activities, best_of}
use durable_threads.Attempt.Ranking.{best_of-Memb}
use durable_threads.Session.{
  Workflow, Session, returned, then_do-returned, wait_for_review, wait_for_review-inbox,
  activity-then, return, ended,
}
use durable_threads.Workflow.{
  follow, after_gate, Loop, Next, stop, again, leave, is_ready, execute, one_round, rounds, give_up,
  run_children, run_all, start_loop, gated, run, result, distinct, routes_of, routing_at,
}
use durable_threads.Workflow.Outcomes.{approvals, refusals, Stopped, decide-Stopped, decide-again}

-- A completed task: one of its attempts is ready, has the provider that is named, and was approved
-- by a reviewer or needs no review.
pub record Completed (a : TaskAssessment) (inbox : List ReviewDecision) (t : TaskRunResult)
    : Type 0 where
  pub best : AttemptResult
  pub listed : Memb best t.attempts
  pub selected : t.selected_provider ≡ some best.provider
  pub ready : is_ready best ≡ true
  pub allowed :
      (approvals inbox ≡ true) ⊎ ((a.review_required ≡ false) × (best.review_required ≡ false))

pub record Sound (a : TaskAssessment) (inbox : List ReviewDecision) (t : TaskRunResult)
    (s' : Session) : Type 0 where
  pub phase : s'.state.phase ≡ ended t.status
  pub completed : t.status ≡ complete → Completed a inbox t
  pub refused : t.status ≡ rejected → refusals inbox ≡ true

Stopped-Sound :
    (a : TaskAssessment) (l : Loop) (x : AttemptResult) (rest : List AttemptResult)
    (inbox : List ReviewDecision) (t : TaskRunResult) (s' : Session)
    → Stopped a (record l { attempts = l.attempts ++ x ∷ rest }) (best_of x rest) inbox t s'
    → Sound a inbox t s'
Stopped-Sound a l x rest inbox t s' st = record {
  phase = st.phase;
  completed = λ e. record {
    best = best_of x rest;
    listed =
        subst (Memb (best_of x rest)) (sym st.attempts)
          (Memb-append_right l.attempts (x ∷ rest) (best_of-Memb x rest));
    selected = st.provider;
    ready = st.ready e;
    allowed = st.allowed e;
  };
  refused = st.refused;
}

pub return-injective :
    {r t : TaskRunResult} {s s' : Session} → return r s ≡ (returned t, s') → r ≡ t
return-injective h = cc

return-state : {r t : TaskRunResult} {s s' : Session} → return r s ≡ (returned t, s') → s ≡ s'
return-state h = cc

-- A review that was taken before counts too.
Sound-cons :
    (a : TaskAssessment) (d : ReviewDecision) (rest : List ReviewDecision) (t : TaskRunResult)
    (s' : Session)
    → Sound a rest t s'
    → Sound a (d ∷ rest) t s'
Sound-cons a d rest t s' h = record {
  phase = h.phase;
  completed = λ e.
      let c = h.completed e in
      record {
        best = c.best;
        listed = c.listed;
        selected = c.selected;
        ready = c.ready;
        allowed = elim c.allowed [ inl y ↦ inl (ground arith) | inr n ↦ inr n ];
      };
  refused = λ e. let r = h.refused e in ground arith;
}

module _ (a : TaskAssessment) (risk : Risk) (activities : Activities) (shape : Text) where
  execute-stop :
      (l : Loop) (ps : List Text) (s s' : Session) (t : TaskRunResult)
      → execute a risk activities shape l ps s ≡ (returned (stop t), s')
      → Sound a s.inbox t s'
  unfolding run_children run_all
  execute-stop l [] s s' t h = cc
  execute-stop l (p ∷ ps) s s' t h =
      Stopped-Sound a l _ _ s.inbox t s' (decide-Stopped a risk _ _ _ s' t h)

  execute-again :
      (l : Loop) (ps : List Text) (s s' : Session) (l' : Loop)
      → execute a risk activities shape l ps s ≡ (returned (again l'), s')
      → s'.inbox ≡ s.inbox
  unfolding run_children run_all
  execute-again l [] s s' l' h = cc
  execute-again l (p ∷ ps) s s' l' h =
      ap (λ (q : Session). q.inbox) (decide-again a risk _ _ _ s' l' h).0

  -- The session in which the routes of a round are asked for.
  abbrev routed : ℕ → Session → Session
  routed index s = record s { state = routing_at a risk activities shape index s.state }

  one_round-stop :
      (index : ℕ) (l : Loop) (s s' : Session) (t : TaskRunResult)
      → one_round a risk activities shape index l s ≡ (returned (stop t), s')
      → Sound a s.inbox t s'
  unfolding one_round
  one_round-stop index l s s' t h =
      let (routes, _, h₁) =
        activity-then (routes_of a risk activities shape index l)
          (λ routes. execute a risk activities shape l (distinct [] routes)) (routed index s) h in
      execute-stop l (distinct [] routes) (routed index s) s' t h₁

  one_round-again :
      (index : ℕ) (l : Loop) (s s' : Session) (l' : Loop)
      → one_round a risk activities shape index l s ≡ (returned (again l'), s')
      → s'.inbox ≡ s.inbox
  unfolding one_round
  one_round-again index l s s' l' h =
      let (routes, _, h₁) =
        activity-then (routes_of a risk activities shape index l)
          (λ routes. execute a risk activities shape l (distinct [] routes)) (routed index s) h in
      execute-again l (distinct [] routes) (routed index s) s' l' h₁

  give_up-Sound :
      (l : Loop) (inbox : List ReviewDecision) (s s' : Session) (t : TaskRunResult)
      → give_up a risk activities shape l s ≡ (returned t, s')
      → Sound a inbox t s'
  unfolding give_up result
  give_up-Sound l inbox s s' t h = record {
    phase = ground arith;
    completed = λ e. absurd (ground arith);
    refused = ground arith;
  }

  follow-Sound :
      (rest : Loop → Workflow TaskRunResult) (index : ℕ) (l : Loop) (next : Next)
      (s s₁ s' : Session) (t : TaskRunResult)
      → one_round a risk activities shape index l s ≡ (returned next, s₁)
      → follow a risk activities shape rest next s₁ ≡ (returned t, s')
      → ((l' : Loop) → rest l' s₁ ≡ (returned t, s') → Sound a s₁.inbox t s')
      → Sound a s.inbox t s'
  follow-Sound rest index l (stop r) s s₁ s' t e h ih =
      subst (λ q. Sound a s.inbox t q) (return-state h)
        (one_round-stop index l s s₁ t (e ∙ ap (λ q. (returned (stop q), s₁)) (return-injective h)))
  follow-Sound rest index l (leave l') s s₁ s' t e h ih = give_up-Sound l' s.inbox s₁ s' t h
  follow-Sound rest index l (again l') s s₁ s' t e h ih =
      subst (λ q. Sound a q t s') (one_round-again index l s s₁ l' e) (ih l' h)

  rounds-Sound :
      (n index : ℕ) (l : Loop) (s s' : Session) (t : TaskRunResult)
      → rounds a risk activities shape n index l s ≡ (returned t, s')
      → Sound a s.inbox t s'
  unfolding rounds
  rounds-Sound zero index l s s' t h = give_up-Sound l s.inbox s s' t h
  rounds-Sound (suc n) index l s s' t h =
      let (next, s₁, e, h₁) =
        then_do-returned (one_round a risk activities shape index l s)
          (follow a risk activities shape (rounds a risk activities shape n (suc index))) h in
      follow-Sound (rounds a risk activities shape n (suc index)) index l next s s₁ s' t e h₁
        (λ l' k. rounds-Sound n (suc index) l' s₁ s' t k)

module _ (a : TaskAssessment) (risk : Risk) (activities : Activities) (task : TaskRunInput) where
  after_gate-Sound :
      (d : ReviewDecision) (rest inbox : List ReviewDecision) (s s' : Session) (t : TaskRunResult)
      → inbox ≡ d ∷ rest
      → s.inbox ≡ rest
      → after_gate a risk activities task d s ≡ (returned t, s')
      → Sound a inbox t s'
  unfolding after_gate start_loop result
  after_gate-Sound d rest inbox s s' t taken left h = elim (Bool-cases d.approved) [
    | inl approved ↦
        subst (λ q. Sound a q t s') (sym taken)
          (Sound-cons a d rest t s' (
            subst (λ q. Sound a q t s') left
              (rounds-Sound a risk activities a.execution_shape _ 1 _ s s' t (simp approved at h))))
    | inr denied ↦ record {
      phase = ground arith;
      completed = λ e. absurd (ground arith);
      refused = λ _. rw taken (ground arith);
    }
  ]

  gated-Sound :
      (s s' : Session) (t : TaskRunResult)
      → gated a risk activities task s ≡ (returned t, s')
      → Sound a s.inbox t s'
  unfolding gated start_loop
  gated-Sound s s' t h = elim (Bool-cases a.human_gate_required) [
    | inl gate ↦
        let (d, s₁, waited, h₁) =
          then_do-returned (wait_for_review s) (after_gate a risk activities task)
            (simp gate at h) in
        after_gate-Sound d s₁.inbox s.inbox s₁ s' t (wait_for_review-inbox s d s₁ waited) refl h₁
    | inr free ↦ rounds-Sound a risk activities a.execution_shape _ 1 _ s s' t (simp free at h)
  ]

-- A result of the workflow, from any state, with any activities and any reviews to come: if it is
-- complete, then one of its attempts is ready (its assessment, its verification and its exit code
-- agree), is the one that is named, and either a reviewer approved or neither the task nor that
-- attempt asks for review; if it is rejected, then a reviewer refused. The phase is the status.
pub run-Sound :
    (activities : Activities) (task : TaskRunInput) (s s' : Session) (t : TaskRunResult)
    → run activities task s ≡ (returned t, s')
    → (a : TaskAssessment) × (activities.assess_task task ≡ ok a) × Sound a s.inbox t s'
unfolding run
run-Sound activities task s s' t h =
    let (a, assessed, h₁) = activity-then (activities.assess_task task) _ _ h in
    (a, assessed, gated-Sound a a.final_risk activities task _ s' t h₁)
