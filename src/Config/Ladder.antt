-- ===== src/Config/Ladder.antt =====
-- The strategy of a roster that src/durable_threads/config.py accepts.
use durable_threads.Prelude.{
  lit, ◌==◌, contains, true, false, not, List, [], ◌∷◌, ◌≡◌, refl, ap, arith, ok, >>=-eq-ok,
  ok-injective, raise_if, ◌>>=◌, subst, Memb, here, there, traverse-Memb,
}
use durable_threads.Errors.{config_error}
use durable_threads.Json.{
  Json, Fields, null, bool, int, float, str, arr, obj, end, field, items_list,
}
use durable_threads.Config.{text, effort_of, efforts, object, boolean, get_or, profiles}
use durable_threads.Config.Entries.{
  EscalationStep, escalation_step, escalation_of, default_escalation, StrategyConfig, strategy_of,
  strategy, risk_of, no_steps,
}
use durable_threads.Config.Valid.{effort_of-IsKnown}

pub record IsLadder (steps : List EscalationStep) : Type 0 where
  pub has_steps : no_steps steps ≡ false
  pub efforts_are_known :
      (s : EscalationStep) → Memb s steps → contains s.reasoning_effort efforts ≡ true

pub record IsStrategy (s : StrategyConfig) : Type 0 where
  pub profile_is_known : contains s.profile profiles ≡ true
  pub ladder : IsLadder s.escalation

known-step :
    (v : Json) (s : EscalationStep)
    → escalation_step v ≡ ok s
    → contains s.reasoning_effort efforts ≡ true
unfolding escalation_step
known-step v s h =
    let (fs, e₁, h₁) = >>=-eq-ok (object v) _ h in
    let (selector, e₂, h₂) = >>=-eq-ok (text (get_or (lit "modelSelector") null fs)) _ h₁ in
    let (effort, e₃, same) = >>=-eq-ok (effort_of (get_or (lit "reasoningEffort") null fs)) _ h₂ in
    subst (λ (k : EscalationStep). contains k.reasoning_effort efforts ≡ true) (ok-injective same)
      (effort_of-IsKnown (get_or (lit "reasoningEffort") null fs) effort e₃)

abbrev EachKnown : List EscalationStep → Type 0
EachKnown steps = (s : EscalationStep) → Memb s steps → contains s.reasoning_effort efforts ≡ true

default-EachKnown : EachKnown default_escalation
unfolding contains lit ◌==◌
default-EachKnown s (here e) = ap (λ (k : EscalationStep). contains k.reasoning_effort efforts) e
default-EachKnown s (there (here e)) =
    ap (λ (k : EscalationStep). contains k.reasoning_effort efforts) e
default-EachKnown s (there (there (here e))) =
    ap (λ (k : EscalationStep). contains k.reasoning_effort efforts) e
default-EachKnown s (there (there (there (here e)))) =
    ap (λ (k : EscalationStep). contains k.reasoning_effort efforts) e
default-EachKnown s (there (there (there (there m)))) = elim m [ ]

escalation_of-EachKnown :
    (v : Json) (steps : List EscalationStep) → escalation_of v ≡ ok steps → EachKnown steps
unfolding escalation_of
escalation_of-EachKnown null steps h = subst EachKnown (ok-injective h) default-EachKnown
escalation_of-EachKnown (arr vs) steps h = λ s m.
    let (v, k, e) = traverse-Memb escalation_step (items_list vs) steps h s m in known-step v s e
escalation_of-EachKnown (obj end) steps h = subst EachKnown (ok-injective h) (λ s m. elim m [ ])
escalation_of-EachKnown (str []) steps h = subst EachKnown (ok-injective h) (λ s m. elim m [ ])
escalation_of-EachKnown (obj (field k v fs)) steps h = absurd (ground arith)
escalation_of-EachKnown (str (c ∷ t)) steps h = absurd (ground arith)
escalation_of-EachKnown (bool b) steps h = absurd (ground arith)
escalation_of-EachKnown (int z) steps h = absurd (ground arith)
escalation_of-EachKnown (float z) steps h = absurd (ground arith)

strategy_of-IsStrategy : (fs : Fields) (s : StrategyConfig) → strategy_of fs ≡ ok s → IsStrategy s
unfolding strategy_of
strategy_of-IsStrategy fs s h =
    let (profile, e₁, h₁) =
      >>=-eq-ok (text (get_or (lit "profile") (str (lit "economy")) fs)) _ h in
    let (u, known, h₂) =
      >>=-eq-ok
        (raise_if (not (contains profile profiles))
          (config_error "strategy.profile must be one of"))
        _ h₁ in
    let (risk, e₃, h₃) =
      >>=-eq-ok (risk_of (get_or (lit "defaultRisk") (str (lit "R1")) fs)) _ h₂ in
    let (review, e₄, h₄) =
      >>=-eq-ok (risk_of (get_or (lit "frontierReviewAt") (str (lit "R3")) fs)) _ h₃ in
    let (sleeping, e₅, h₅) =
      >>=-eq-ok (boolean (get_or (lit "sleepingOrchestrator") (bool true) fs)) _ h₄ in
    let (steps, e₆, h₆) = >>=-eq-ok (escalation_of (get_or (lit "escalation") null fs)) _ h₅ in
    let (u₂, some_step, same) =
      >>=-eq-ok (raise_if (no_steps steps) (config_error "strategy.escalation must not be empty")) _
        h₆ in
    subst IsStrategy (ok-injective same) (record {
      profile_is_known = ground arith;
      ladder = record {
        has_steps = ground arith;
        efforts_are_known = escalation_of-EachKnown (get_or (lit "escalation") null fs) steps e₆;
      };
    })

economy_known : contains (lit "economy") profiles ≡ true
unfolding contains lit ◌==◌
economy_known = refl

through_object : (v : Json) (s : StrategyConfig) → (object v >>= strategy_of) ≡ ok s → IsStrategy s
through_object v s h = let (fs, e, h₁) = >>=-eq-ok (object v) _ h in strategy_of-IsStrategy fs s h₁

pub strategy-IsStrategy : (v : Json) (s : StrategyConfig) → strategy v ≡ ok s → IsStrategy s
unfolding strategy
strategy-IsStrategy null s h = subst IsStrategy (ok-injective h) (record {
  profile_is_known = economy_known;
  ladder = record { has_steps = refl; efforts_are_known = default-EachKnown };
})
strategy-IsStrategy (obj fs) s h = through_object (obj fs) s h
strategy-IsStrategy (bool b) s h = through_object (bool b) s h
strategy-IsStrategy (int z) s h = through_object (int z) s h
strategy-IsStrategy (float z) s h = through_object (float z) s h
strategy-IsStrategy (str t) s h = through_object (str t) s h
strategy-IsStrategy (arr vs) s h = through_object (arr vs) s h
