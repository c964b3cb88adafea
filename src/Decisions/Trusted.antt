-- ===== src/Decisions/Trusted.antt =====
-- The answers of src/durable_threads/decisions.py, JevDecisionEngine, that the policy can judge.
use durable_threads.Prelude.{
  sym, traverse-Memb, traverse, >>=-eq-ok, inr, inl, Option-cases, Text, ℤ, pos, ok, some, ◌≡◌,
  ◌≤ℤ◌, Memb, here, there, refl, [], ◌∷◌, Bool, true, false, if◌then◌else◌, leb_ℤ, subst,
  ok-injective, arith, ◌-ℤ◌, lit, upper, ◌==◌, Option,
}
use durable_threads.Errors.{Res}
use durable_threads.Dict.{Dict}
use durable_threads.Risk.{Risk, r0, r1, r2, r3, r4, label, parse_label}
use durable_threads.Decisions.Gate.{gate_returns}
use durable_threads.Decisions.{
  gate, DecisionGate, DecisionBatch, DecisionQuestion, DecisionPolicy, DecisionState,
  DecisionAnswer,
}
use durable_threads.Decisions.Jev.{
  named_answer, jev_decide, ask_jev, Response, WireQuestion, JevEngine, wire_question, WireAnswer,
  noul_reply, choice_reply, score_reply, other_reply, answer_of, largest, largest_value,
}

abbrev pub InRange : ℤ → Type 0
InRange p = (pos 0 ≤ℤ p) × (p ≤ℤ pos 1000)

-- The probabilities and the confidence of an answer are between 0 and 1.
unfoldable pub IsProbable : WireAnswer → Type 0
IsProbable (noul_reply p) = InRange p
IsProbable (choice_reply chosen d confidence) =
    ((k : Text) (v : ℤ) → Memb (k, v) d → InRange v) × InRange confidence
IsProbable (score_reply value d confidence) = InRange confidence
IsProbable other_reply = Unit

largest-InRange :
    (best : ℤ) (d : Dict ℤ)
    → InRange best
    → ((k : Text) (v : ℤ) → Memb (k, v) d → InRange v)
    → InRange (largest best d)
unfolding largest
largest-InRange best [] h all = h
largest-InRange best ((k, v) ∷ d) h all =
    largest-InRange (if leb_ℤ v best then best else v) d (pick (leb_ℤ v best))
      (λ j w m. all j w (there m))
  where
    pick : (b : Bool) → InRange (if b then best else v)
    pick true = h
    pick false = all k v (here refl)

upper-label : (risk : Risk) → parse_label (upper (label risk)) ≡ some risk
unfolding upper parse_label label lit ◌==◌
upper-label r0 = refl
upper-label r1 = refl
upper-label r2 = refl
upper-label r3 = refl
upper-label r4 = refl

complement-InRange : (p : ℤ) → InRange p → InRange (pos 1000 -ℤ p)
unfolding ◌-ℤ◌
complement-InRange p h = (ground arith, ground arith)

either-InRange : (b : Bool) (p q : ℤ) → InRange p → InRange q → InRange (if b then p else q)
either-InRange true p q h h' = h
either-InRange false p q h h' = h'

answer_of-InRange :
    (name : Text) (reply : WireAnswer) (a : DecisionAnswer)
    → IsProbable reply
    → answer_of name reply ≡ ok a
    → InRange a.certainty
unfolding answer_of IsProbable largest largest_value
answer_of-InRange name (noul_reply p) a h same =
    subst (λ b. InRange b.certainty) (ok-injective same)
      (either-InRange (leb_ℤ (pos 1000 -ℤ p) p) p (pos 1000 -ℤ p) h (complement-InRange p h))
answer_of-InRange name (choice_reply chosen [] confidence) a h same =
    subst (λ b. InRange b.certainty) (ok-injective same) (omega arith, omega arith)
answer_of-InRange name (choice_reply chosen ((k, v) ∷ d) confidence) a h same =
    subst (λ b. InRange b.certainty) (ok-injective same)
      (largest-InRange v d (h.0 k v (here refl)) (λ j w m. h.0 j w (there m)))
answer_of-InRange name (score_reply value d confidence) a h same =
    subst (λ b. InRange b.certainty) (ok-injective same) h
answer_of-InRange name other_reply a h same = absurd (ground arith)

module _ (sdk : Option (JevEngine → DecisionState → Dict WireQuestion → Res Response))
    (digest : DecisionState → Text) where
  asked-InRange :
      (engine : JevEngine) (state : DecisionState) (questions : Dict DecisionQuestion)
      (batch : DecisionBatch)
      → ((system_one : JevEngine → DecisionState → Dict WireQuestion → Res Response)
            (wire : Dict WireQuestion) (response : Response) (name : Text) (reply : WireAnswer)
          → sdk ≡ some system_one
          → system_one engine state wire ≡ ok response
          → Memb (name, reply) response.answers
          → IsProbable reply)
      → ask_jev sdk digest engine state questions ≡ ok batch
      → (name : Text) (a : DecisionAnswer) → Memb (name, a) batch.answers
      → InRange a.certainty
  unfolding ask_jev named_answer
  asked-InRange engine state questions batch h same name a m = elim (Option-cases sdk) [
    | inl none_here ↦ absurd (ground arith)
    | inr (system_one, known) ↦
        let (wire, e₁, h₁) =
          >>=-eq-ok (traverse wire_question questions) _
            (subst (λ s. ask_jev s digest engine state questions ≡ ok batch) known same) in
        let (response, e₂, h₂) = >>=-eq-ok (system_one engine state wire) _ h₁ in
        let (answers, e₃, h₃) = >>=-eq-ok (traverse named_answer response.answers) _ h₂ in
        let ((n, reply), m', e₄) =
          traverse-Memb named_answer response.answers answers e₃ (name, a)
            (subst (λ b. Memb (name, a) b.answers) (sym (ok-injective h₃)) m) in
        let (a', e₅, h₅) = >>=-eq-ok (answer_of n reply) _ e₄ in
        subst (λ (x : Text × DecisionAnswer). InRange x.1.certainty) (ok-injective h₅)
          (answer_of-InRange n reply a' (h system_one wire response n reply known e₂ m') e₅)
  ]

  -- If every answer that the SDK returns has its probabilities and its confidence between 0 and 1,
  -- then for each answer of a batch that `jev_decide` returns and each class of risk the gate of the
  -- policy returns for the certainty of the answer, and does not raise.
  pub jev_decide-IsGated :
      (policy : DecisionPolicy) (engine : JevEngine) (state : DecisionState)
      (questions : Dict DecisionQuestion) (batch : DecisionBatch)
      → ((system_one : JevEngine → DecisionState → Dict WireQuestion → Res Response)
            (wire : Dict WireQuestion) (response : Response) (name : Text) (reply : WireAnswer)
          → sdk ≡ some system_one
          → system_one engine state wire ≡ ok response
          → Memb (name, reply) response.answers
          → IsProbable reply)
      → jev_decide sdk digest engine state questions ≡ ok batch
      → (name : Text) (a : DecisionAnswer) → Memb (name, a) batch.answers
      → (risk : Risk) → (g : DecisionGate) × (gate policy a.certainty (label risk) ≡ ok g)
  unfolding jev_decide
  jev_decide-IsGated policy engine state [] batch h same name a m risk = absurd (ground arith)
  jev_decide-IsGated policy engine state (q ∷ qs) batch h same name a m risk =
      (gate_returns policy a.certainty (label risk)).1
        (known_class (asked-InRange engine state (q ∷ qs) batch h same name a m))
    where
      known_class :
          InRange a.certainty
          → (pos 0 ≤ℤ a.certainty)
            × (a.certainty ≤ℤ pos 1000)
            × (r : Risk) × (parse_label (upper (label risk)) ≡ some r)
      known_class (lo, hi) = (lo, hi, risk, upper-label risk)
