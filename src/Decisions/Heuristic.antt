-- ===== src/Decisions/Heuristic.antt =====
-- The deterministic engines of src/durable_threads/decisions.py: HeuristicDecisionEngine and
-- StaticDecisionEngine. `digest` is `canonical_state_hash`, which hashes the JSON text of a state.
use durable_threads.Prelude.{
  Text, lit, ◌==◌, Bool, true, false, not, ◌&&◌, Option, none, some, List, [], ◌∷◌, ℤ, pos, leb_ℤ,
  eq_ℤ, ◌-ℤ◌, if◌then◌else◌, ok, err, ◌>>=◌, ◌>>◌, raise_if, or_else, or_raise, contains, traverse,
  map,
}
use durable_threads.Errors.{Res, decision_error}
use durable_threads.Dict.{Dict, get, put}
use durable_threads.Risk.{Risk, r0, r1, r2, r3, r4, label, classify_risk}
use durable_threads.Decisions.{
  QuestionKind, noul, choice, score, DecisionQuestion, Value, flag, text, DecisionAnswer,
  StateFields, DecisionState, object, plain, items, DecisionEngine, is_high,
}

-- `max(probabilities.values())` of a dict with at least one item, all of them at least 0.
unfoldable pub max_value : Dict ℤ → ℤ
max_value [] = pos 0
max_value ((k, v) ∷ d) = let best = max_value d in if leb_ℤ best v then v else best

unfoldable pub noul_probabilities : ℤ → Dict ℤ
noul_probabilities p = (lit "true", p) ∷ (lit "false", pos 1000 -ℤ p) ∷ []

abbrev pub expected_kind : Value → QuestionKind
expected_kind (flag b) = noul
expected_kind _ = choice

abbrev pub same_kind : QuestionKind → QuestionKind → Bool
same_kind noul noul = true
same_kind choice choice = true
same_kind score score = true
same_kind _ _ = false

unfoldable pub heuristic_answer : Text → DecisionQuestion → Value → Dict ℤ → Res DecisionAnswer
heuristic_answer name question value probabilities = do
  raise_if (not (same_kind question.kind (expected_kind value)))
      (decision_error "question has kind")
  ok (record {
    name = name;
    kind = expected_kind value;
    value = value;
    certainty = max_value probabilities;
    probabilities = probabilities;
    provider_confidence = none;
  })

-- A yes/no answer from the probability of yes.
unfoldable pub noul_answer : Text → DecisionQuestion → ℤ → Res DecisionAnswer
noul_answer name question p =
    heuristic_answer name question (flag (leb_ℤ (pos 500) p)) (noul_probabilities p)

-- The class of the state's task, as the engine asks for it.
unfoldable pub state_risk : StateFields → Res Risk
state_risk state = do
  assessment ←
      classify_risk (or_else state.objective []) (or_else state.allowed_paths [])
        (or_else state.acceptance []) none (lit "R1")
  ok assessment.risk_class

abbrev is_zero : Option ℤ → Bool
is_zero none = false
is_zero (some n) = eq_ℤ n (pos 0)

abbrev truthy : Option Bool → Bool
truthy none = false
truthy (some b) = b

abbrev some_items : Option (List Text) → Bool
some_items none = false
some_items (some []) = false
some_items (some (c ∷ cs)) = true

-- The value and the probabilities of `intervention`.
unfoldable pub intervention_of : StateFields → Text × ℤ
intervention_of state =
    if is_zero state.exit_code && truthy state.evidence_complete
    then (lit "accept", pos 900)
    else if is_zero state.exit_code
    then (lit "correct_same", pos 600)
    else (lit "switch_executor", pos 600)

-- (1 - p) / 4 for the two probabilities above.
abbrev remainder : ℤ → ℤ
remainder p = if eq_ℤ p (pos 900) then pos 25 else pos 100

-- The questions that come after the second classification.
unfoldable pub later_question : Text → DecisionQuestion → StateFields → Risk → Res DecisionAnswer
later_question name question state risk =
    if name == lit "execution_shape"
    then (let shape = if is_high risk then lit "worker_plus_review" else lit "single_worker" in
        heuristic_answer name question (text shape) (
          put shape (pos 900) (
            map (λ s. (s, pos 50))
              (lit "single_worker" ∷ lit "worker_plus_review" ∷ lit "parallel_workers" ∷ []))))
    else if name == lit "independent_review"
    then noul_answer name question (if is_high risk then pos 950 else pos 150)
    else if name == lit "semantic_complete"
    then noul_answer name question
        (if is_zero state.exit_code && truthy state.evidence_complete then pos 900 else pos 100)
    else if name == lit "evidence_sufficient"
    then noul_answer name question
        (if truthy state.evidence_complete && some_items state.checks then pos 900 else pos 100)
    else (let (value, p) = intervention_of state in
        heuristic_answer name question (text value) (
          put value p (
            map (λ c. (c, remainder p))
              (lit "accept"
                ∷ lit "correct_same"
                ∷ lit "switch_executor"
                ∷ lit "stronger_model"
                ∷ lit "human_review"
                ∷ []))))

unfoldable pub heuristic_question : Text → DecisionQuestion → StateFields → Res DecisionAnswer
heuristic_question name question state =
    if name == lit "risk"
    then (do
      risk ← state_risk state
      heuristic_answer name question (text (label risk))
          (put (label risk) (pos 900) (map (λ r. (label r, pos 25)) (r0 ∷ r1 ∷ r2 ∷ r3 ∷ r4 ∷ []))))
    else if name == lit "delegate"
    then noul_answer name question
        (if some_items state.allowed_paths && some_items state.acceptance then pos 850 else pos 300)
    else if name == lit "ambiguous"
    then noul_answer name question (if some_items state.acceptance then pos 200 else pos 700)
    else (do risk ← state_risk state; later_question name question state risk)

abbrev supported : List Text
supported =
    lit "risk"
    ∷ lit "delegate"
    ∷ lit "ambiguous"
    ∷ lit "execution_shape"
    ∷ lit "independent_review"
    ∷ lit "semantic_complete"
    ∷ lit "evidence_sufficient"
    ∷ lit "intervention"
    ∷ []

-- One round of the loop of `decide`.
unfoldable pub heuristic_round :
    DecisionState → Text × DecisionQuestion → Res (Text × DecisionAnswer)
heuristic_round state (name, question) = do
  raise_if (not (contains name supported))
      (decision_error "heuristic engine does not support question")
  elim state [
    | object fields ↦ do found ← heuristic_question name question fields; ok (name, found)
    | plain t ↦ err (decision_error "heuristic engine requires object state")
    | items vs ↦ err (decision_error "heuristic engine requires object state")
  ]

module _ (digest : DecisionState → Text) where
  unfoldable pub heuristic_engine : DecisionEngine
  heuristic_engine state questions = do
    answers ← traverse (heuristic_round state) questions
    ok (record {
      engine = lit "heuristic";
      model = lit "heuristic";
      state_hash = digest state;
      answers = answers;
      usage = none;
    })

  -- StaticDecisionEngine.decide, from its table of answers.
  unfoldable pub static_engine : Dict DecisionAnswer → DecisionEngine
  static_engine table state questions = do
    answers ←
        traverse
          (λ (q : Text × DecisionQuestion). do
            found ← or_raise (get q.0 table) (decision_error "static engine missing answer(s)")
            ok (q.0, found))
          questions
    ok (record {
      engine = lit "static";
      model = lit "static";
      state_hash = digest state;
      answers = answers;
      usage = none;
    })
