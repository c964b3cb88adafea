-- ===== src/Workflow/Provenance.antt =====
-- Where the attempts of a result come from.
use durable_threads.Prelude.{
  ℕ, zero, suc, Text, false, List, [], ◌∷◌, ◌++◌, ◌≡◌, refl, sym, inl, inr, arith, Bool-cases, Memb,
  here, there, Memb-append, ok, subst, pos, ◌∙◌, ap,
}
use durable_threads.Intelligence.{TaskAssessment}
use durable_threads.Contracts.{
  TaskRunInput, AttemptResult, ReviewDecision, TaskRunResult, ExecutionAttemptInput,
}
use durable_threads.Attempt.{Activities, run_child}
use durable_threads.Session.{
  wait_for_review, Workflow, Session, returned, then_do-returned, activity-then,
}
use durable_threads.Workflow.{
  follow, after_gate, Loop, Next, stop, again, leave, execute, one_round, rounds, give_up,
  run_children, run_all, start_loop, gated, run, result, distinct, routes_of, routing_at,
}
use durable_threads.Workflow.Soundness.{return-injective}
use durable_threads.Workflow.Outcomes.{decide-Stopped, decide-again}
use durable_threads.Workflow.Decided.{decide_not_leave, decide-task}

module _ (activities : Activities) (task : TaskRunInput) (a : TaskAssessment) where
  -- An attempt of a child workflow, for the task at some reasoning effort.
  pub record IsChild (x : AttemptResult) : Type 0 where
    pub request : ExecutionAttemptInput
    pub ran : x ≡ run_child activities request
    pub effort : Text
    pub of_task : request.task ≡ record task { reasoning_effort = effort }
    pub risk : request.risk_class ≡ a.final_risk

  abbrev pub Children : List AttemptResult → Type 0
  Children xs = (x : AttemptResult) → Memb x xs → IsChild x

  pub record IsLoop (l : Loop) : Type 0 where
    pub effort : Text
    pub of_task : l.task ≡ record task { reasoning_effort = effort }
    pub children : Children l.attempts

  run_all-Children :
      (t : TaskRunInput) (shape : Text) (round : ℕ) (ps : List Text) (effort : Text)
      → t ≡ record task { reasoning_effort = effort }
      → Children (run_all activities t a.final_risk shape round ps)
  unfolding run_all
  run_all-Children t shape round [] effort e x m = elim m [ ]
  run_all-Children t shape round (p ∷ ps) effort e x (here q) = record {
    request = record {
      task = t;
      provider = p;
      risk_class = a.final_risk;
      attempt = pos round;
      execution_shape = shape;
    };
    ran = q;
    effort = effort;
    of_task = e;
    risk = refl;
  }
  run_all-Children t shape round (p ∷ ps) effort e x (there m) =
      run_all-Children t shape round ps effort e x m

  Children-append : (xs ys : List AttemptResult) → Children xs → Children ys → Children (xs ++ ys)
  Children-append xs ys f g x m = elim (Memb-append xs ys m) [ inl k ↦ f x k | inr k ↦ g x k ]

  current-Children :
      (l : Loop) (p : Text) (ps : List Text) (shape : Text) (s : Session)
      → IsLoop l
      → Children (l.attempts ++ run_all activities l.task a.final_risk shape s.state.round (p ∷ ps))
  current-Children l p ps shape s i =
      Children-append l.attempts _ i.children
        (run_all-Children l.task shape s.state.round (p ∷ ps) i.effort i.of_task)

  execute-Children :
      (l : Loop) (ps : List Text) (shape : Text) (s s' : Session) (t : TaskRunResult)
      → IsLoop l
      → execute a a.final_risk activities shape l ps s ≡ (returned (stop t), s')
      → Children t.attempts
  unfolding run_children run_all
  execute-Children l [] shape s s' t i h = absurd cc
  execute-Children l (p ∷ ps) shape s s' t i h =
      subst Children (sym (decide-Stopped a a.final_risk _ _ _ s' t h).attempts)
        (current-Children l p ps shape s i)

  execute-IsLoop :
      (l l' : Loop) (ps : List Text) (shape : Text) (s s' : Session)
      → IsLoop l
      → execute a a.final_risk activities shape l ps s ≡ (returned (again l'), s')
      → IsLoop l'
  unfolding run_children run_all
  execute-IsLoop l l' [] shape s s' i h = absurd cc
  execute-IsLoop l l' (p ∷ ps) shape s s' i h = record {
    effort = l'.task.reasoning_effort;
    of_task =
        decide-task a a.final_risk _ _ _ s' l' h
        ∙ ap (λ (x : TaskRunInput). record x { reasoning_effort = l'.task.reasoning_effort })
            i.of_task;
    children =
        subst Children (sym (decide-again a a.final_risk _ _ _ s' l' h).1)
          (current-Children l p ps shape s i);
  }

  execute-leave :
      (l l' : Loop) (ps : List Text) (shape : Text) (s s' : Session)
      → execute a a.final_risk activities shape l ps s ≡ (returned (leave l'), s')
      → l ≡ l'
  unfolding run_children run_all
  execute-leave l l' [] shape s s' h = cc
  execute-leave l l' (p ∷ ps) shape s s' h = absurd (decide_not_leave a a.final_risk _ _ _ s' l' h)

  give_up-Children :
      (l : Loop) (shape : Text) (s s' : Session) (t : TaskRunResult)
      → IsLoop l
      → give_up a a.final_risk activities shape l s ≡ (returned t, s')
      → Children t.attempts
  unfolding give_up result
  give_up-Children l shape s s' t i h = subst Children (same h) i.children
    where
      same :
          give_up a a.final_risk activities shape l s ≡ (returned t, s') → l.attempts ≡ t.attempts
      same k = ground arith

  abbrev routed : Text → ℕ → Session → Session
  routed shape index s = record s {
    state = routing_at a a.final_risk activities shape index s.state;
  }

  follow-Children :
      (rest : Loop → Workflow TaskRunResult) (shape : Text) (index : ℕ) (l : Loop) (next : Next)
      (s s₁ s' : Session) (t : TaskRunResult)
      → IsLoop l
      → one_round a a.final_risk activities shape index l s ≡ (returned next, s₁)
      → follow a a.final_risk activities shape rest next s₁ ≡ (returned t, s')
      → ((l' : Loop) → IsLoop l' → rest l' s₁ ≡ (returned t, s') → Children t.attempts)
      → Children t.attempts
  unfolding one_round
  follow-Children rest shape index l next s s₁ s' t i e h ih =
      let (routes, _, e₁) =
        activity-then (routes_of a a.final_risk activities shape index l)
          (λ routes. execute a a.final_risk activities shape l (distinct [] routes))
          (routed shape index s) e in
      go next (distinct [] routes) e₁ h
    where
      go :
          (next : Next) (ps : List Text)
          → execute a a.final_risk activities shape l ps (routed shape index s)
            ≡ (returned next, s₁)
          → follow a a.final_risk activities shape rest next s₁ ≡ (returned t, s')
          → Children t.attempts
      go (stop r) ps e₁ h =
          execute-Children l ps shape _ s₁ t i
            (e₁ ∙ ap (λ q. (returned (stop q), s₁)) (return-injective h))
      go (leave l') ps e₁ h =
          give_up-Children l' shape s₁ s' t (subst IsLoop (execute-leave l l' ps shape _ s₁ e₁) i) h
      go (again l') ps e₁ h = ih l' (execute-IsLoop l l' ps shape _ s₁ i e₁) h

  rounds-Children :
      (n index : ℕ) (shape : Text) (l : Loop) (s s' : Session) (t : TaskRunResult)
      → IsLoop l
      → rounds a a.final_risk activities shape n index l s ≡ (returned t, s')
      → Children t.attempts
  unfolding rounds
  rounds-Children zero index shape l s s' t i h = give_up-Children l shape s s' t i h
  rounds-Children (suc n) index shape l s s' t i h =
      let (next, s₁, e, h₁) =
        then_do-returned (one_round a a.final_risk activities shape index l s)
          (follow a a.final_risk activities shape
            (rounds a a.final_risk activities shape n (suc index)))
          h in
      follow-Children (rounds a a.final_risk activities shape n (suc index)) shape index l next s s₁
        s' t i e h₁ (λ l' i' k. rounds-Children n (suc index) shape l' s₁ s' t i' k)

  start-Children :
      (s s' : Session) (t : TaskRunResult)
      → start_loop a a.final_risk activities task s ≡ (returned t, s')
      → Children t.attempts
  unfolding start_loop
  start-Children s s' t h =
      rounds-Children _ 1 a.execution_shape _ s s' t
        (record { effort = task.reasoning_effort; of_task = refl; children = λ x m. elim m [ ] }) h

  after_gate-Children :
      (d : ReviewDecision) (s s' : Session) (t : TaskRunResult)
      → after_gate a a.final_risk activities task d s ≡ (returned t, s')
      → Children t.attempts
  unfolding after_gate result
  after_gate-Children d s s' t h = elim (Bool-cases d.approved) [
    | inl approved ↦ start-Children s s' t (simp approved at h)
    | inr denied ↦ λ x m. elim (subst (Memb x) (nothing denied h) m) [ ]
  ]
    where
      nothing :
          d.approved ≡ false
          → after_gate a a.final_risk activities task d s ≡ (returned t, s')
          → t.attempts ≡ []
      nothing denied k = ground arith

  gated-Children :
      (s s' : Session) (t : TaskRunResult)
      → gated a a.final_risk activities task s ≡ (returned t, s')
      → Children t.attempts
  unfolding gated
  gated-Children s s' t h = elim (Bool-cases a.human_gate_required) [
    | inl gate ↦
        let (d, s₁, _, h₁) =
          then_do-returned (wait_for_review s) (after_gate a a.final_risk activities task)
            (simp gate at h) in
        after_gate-Children d s₁ s' t h₁
    | inr free ↦ start-Children s s' t (simp free at h)
  ]

-- Every attempt of a result of `run` is the attempt of a child workflow that ran the task itself, at
-- some reasoning effort, under the class that was assessed.
pub run-IsChild :
    (activities : Activities) (task : TaskRunInput) (s s' : Session) (t : TaskRunResult)
    → run activities task s ≡ (returned t, s')
    → (a : TaskAssessment) × (activities.assess_task task ≡ ok a)
      × ((x : AttemptResult) → Memb x t.attempts → IsChild activities task a x)
unfolding run
run-IsChild activities task s s' t h =
    let (a, assessed, h₁) = activity-then (activities.assess_task task) _ _ h in
    (a, assessed, gated-Children activities task a _ s' t h₁)
