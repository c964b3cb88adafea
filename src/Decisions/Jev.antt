-- ===== src/Decisions/Jev.antt =====
-- The remote engine of src/durable_threads/decisions.py, JevDecisionEngine, and the choice of an
-- engine from the environment, decision_engine_from_env. The TypeSafe SDK is the parameter `sdk`,
-- which is `none` where it is not installed, `digest` is `canonical_state_hash`, and `float_of` is
-- the conversion `float` of a text.
use durable_threads.Prelude.{
  Text, lit, ◌==◌, Bool, true, false, not, Option, none, some, List, [], ◌∷◌, ℤ, pos, leb_ℤ, ◌-ℤ◌,
  if◌then◌else◌, ok, err, ◌>>=◌, ◌>>◌, raise_if, or_else, traverse, nonblank,
}
use durable_threads.Errors.{Res, decision_error, value_error}
use durable_threads.Dict.{Dict, get}
use durable_threads.Json.{Json}
use durable_threads.Decisions.{
  QuestionKind, noul, choice, score, Criteria, absent, mapping, ordered, DecisionQuestion, flag,
  text, number, DecisionAnswer, DecisionBatch, DecisionState, DecisionEngine,
}
use durable_threads.Decisions.Heuristic.{heuristic_engine}

-- The questions of the SDK: Noul, Choice and Score. A pair of criteria is that of "true" and "false".
pub data WireQuestion : Type 0 where
  noul_wire : Option Json → Option (Option Json × Option Json) → WireQuestion
  choice_wire : Option Json → Dict (Option Json) → WireQuestion
  score_wire : Option Json → List Json → WireQuestion

-- The answers of the SDK, told apart by their attribute `type`; a confidence stands last.
pub data WireAnswer : Type 0 where
  noul_reply : ℤ → WireAnswer
  choice_reply : Text → Dict ℤ → ℤ → WireAnswer
  score_reply : ℤ → Dict ℤ → ℤ → WireAnswer
  other_reply : WireAnswer

pub record Response : Type 0 where
  pub model : Text
  pub answers : Dict WireAnswer
  pub input_tokens : Option ℤ
  pub output_tokens : Option ℤ

pub record JevEngine : Type 0 where
  pub model : Text
  pub api_key : Option Text
  pub base_url : Option Text
  pub timeout_seconds : ℤ

-- JevDecisionEngine.__init__.
unfoldable pub jev_engine : Text → Option Text → Option Text → ℤ → Res JevEngine
unfolding nonblank
jev_engine model api_key base_url timeout_seconds = do
  raise_if (not (nonblank model)) (value_error "model must be a non-empty string")
  raise_if (leb_ℤ timeout_seconds (pos 0)) (value_error "timeout_seconds must be > 0")
  ok (record {
    model = model;
    api_key = api_key;
    base_url = base_url;
    timeout_seconds = timeout_seconds;
  })

-- `criteria.get(key)`, where a missing key and the value None are the same.
abbrev criterion : Text → Dict (Option Json) → Option Json
criterion key d = or_else (get key d) none

unfoldable pub wire_of : Option Json → QuestionKind → Criteria → Res WireQuestion
unfolding get lit
wire_of instructions noul (mapping d) =
    ok (noul_wire instructions (some (criterion (lit "true") d, criterion (lit "false") d)))
wire_of instructions noul absent = ok (noul_wire instructions none)
wire_of instructions noul (ordered vs) = ok (noul_wire instructions none)
wire_of instructions choice (mapping (c ∷ d)) = ok (choice_wire instructions (c ∷ d))
wire_of instructions choice _ = err (decision_error "choice question requires mapping criteria")
wire_of instructions score (ordered (v ∷ vs)) = ok (score_wire instructions (v ∷ vs))
wire_of instructions score _ = err (decision_error "score question requires ordered criteria")

abbrev is_empty_name : Text → Bool
is_empty_name [] = true
is_empty_name (c ∷ cs) = false

unfoldable pub wire_question : Text × DecisionQuestion → Res (Text × WireQuestion)
unfolding wire_of
wire_question (name, question) = do
  raise_if (is_empty_name name) (decision_error "question names must be non-empty strings")
  wire ← wire_of question.instructions question.kind question.criteria
  ok (name, wire)

-- `max(probabilities.values())`, and 0 for no probabilities.
unfoldable pub largest : ℤ → Dict ℤ → ℤ
largest best [] = best
largest best ((k, v) ∷ d) = let rest = largest (if leb_ℤ v best then best else v) d in rest

unfoldable pub largest_value : Dict ℤ → ℤ
unfolding largest
largest_value [] = pos 0
largest_value ((k, v) ∷ d) = largest v d

unfoldable pub answer_of : Text → WireAnswer → Res DecisionAnswer
unfolding largest_value lit
answer_of name (noul_reply p) =
    let probabilities = (lit "true", p) ∷ (lit "false", pos 1000 -ℤ p) ∷ [] in
    ok (record {
      name = name;
      kind = noul;
      value = flag (leb_ℤ (pos 500) p);
      certainty = largest_value probabilities;
      probabilities = probabilities;
      provider_confidence = none;
    })
answer_of name (choice_reply chosen probabilities confidence) = ok (record {
  name = name;
  kind = choice;
  value = text chosen;
  certainty = largest_value probabilities;
  probabilities = probabilities;
  provider_confidence = some confidence;
})
answer_of name (score_reply value probabilities confidence) = ok (record {
  name = name;
  kind = score;
  value = number value;
  certainty = confidence;
  probabilities = probabilities;
  provider_confidence = some confidence;
})
answer_of name other_reply = err (decision_error "unsupported Jev answer type")

unfoldable pub named_answer : Text × WireAnswer → Res (Text × DecisionAnswer)
unfolding answer_of
named_answer (name, reply) = do given ← answer_of name reply; ok (name, given)

-- `usage or None`.
unfoldable pub response_usage : Option ℤ → Option ℤ → Option (Dict ℤ)
unfolding lit
response_usage none none = none
response_usage (some i) none = some ((lit "inputTokens", i) ∷ [])
response_usage none (some o) = some ((lit "outputTokens", o) ∷ [])
response_usage (some i) (some o) = some ((lit "inputTokens", i) ∷ (lit "outputTokens", o) ∷ [])

module _ (sdk : Option (JevEngine → DecisionState → Dict WireQuestion → Res Response))
    (digest : DecisionState → Text) where
  abbrev installed : Res (JevEngine → DecisionState → Dict WireQuestion → Res Response)
  installed = elim sdk [
    | none ↦ err (decision_error "TypeSafe SDK is not installed; install durable-threads[jev]")
    | some system_one ↦ ok system_one
  ]

  -- JevDecisionEngine.decide, once there is a question.
  unfoldable pub ask_jev : JevEngine → DecisionState → Dict DecisionQuestion → Res DecisionBatch
  unfolding lit wire_question named_answer response_usage
  ask_jev engine state questions = do
    system_one ← installed
    wire ← traverse wire_question questions
    response ← system_one engine state wire
    answers ← traverse named_answer response.answers
    ok (record {
      engine = lit "typesafe:system-one";
      model = response.model;
      state_hash = digest state;
      answers = answers;
      usage = response_usage response.input_tokens response.output_tokens;
    })

  unfoldable pub jev_decide : JevEngine → DecisionEngine
  unfolding ask_jev
  jev_decide engine state [] = err (decision_error "questions must not be empty")
  jev_decide engine state (q ∷ qs) = ask_jev engine state (q ∷ qs)

  -- `value or None` of a variable.
  abbrev set_value : Text → Dict Text → Option Text
  unfolding get
  set_value key values = elim (get key values) [
    | none ↦ none
    | some v ↦ if is_empty_name v then none else some v
  ]

  -- The variable DURABLE_THREADS_DECISION_ENGINE, and without it the engine that the key selects.
  unfoldable engine_name : Dict Text → Text
  unfolding lit
  engine_name values = elim (set_value (lit "DURABLE_THREADS_DECISION_ENGINE") values) [
    | none ↦ (elim (set_value (lit "TYPESAFE_API_KEY") values) [
      | none ↦ lit "heuristic"
      | some key ↦ lit "jev"
    ])
    | some configured ↦ configured
  ]

  unfoldable pub decision_engine_from_env : (Text → Res ℤ) → Dict Text → Res DecisionEngine
  unfolding lit engine_name jev_engine jev_decide get heuristic_engine ◌==◌
  decision_engine_from_env float_of values =
      if engine_name values == lit "heuristic"
      then ok (heuristic_engine digest)
      else if engine_name values == lit "jev"
      then (do
        timeout ←
            float_of (or_else (get (lit "DURABLE_THREADS_JEV_TIMEOUT_SECONDS") values) (lit "30"))
        engine ←
            jev_engine (or_else (get (lit "DURABLE_THREADS_JEV_MODEL") values) (lit "jev-latest"))
              (set_value (lit "TYPESAFE_API_KEY") values)
              (set_value (lit "TYPESAFE_BASE_URL") values) timeout
        ok (jev_decide engine))
      else err (value_error "DURABLE_THREADS_DECISION_ENGINE must be one of: jev, heuristic")
