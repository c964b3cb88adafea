-- ===== src/Decisions.antt =====
-- src/durable_threads/decisions.py: questions, answers, batches, and the policy that turns a
-- certainty into a gate. The engines are in the modules below.
-- A `float` is an integer number of thousandths.
pub mod Heuristic
pub mod Gate
pub mod Jev
pub mod Trusted
pub mod Stored
mod Samples
use durable_threads.Prelude.{
  ℕ, suc, zero, ◌+◌, ◌/◌, ◌%◌, Text, String, lit, ◌==◌, upper, Bool, true, false, not, ◌&&◌, ◌||◌,
  Option, none, some, List, [], ◌∷◌, ◌++◌, ℤ, pos, negsuc, ltb_ℤ, leb_ℤ, leb, ltb, nat_eq,
  if◌then◌else◌, ok, err, ◌>>=◌, ◌>>◌, raise_if, or_raise,
}
use durable_threads.Errors.{Res, value_error, decision_error}
use durable_threads.Dict.{Dict, get}
use durable_threads.Json.{Json}
use durable_threads.Risk.{Risk, r0, r1, r2, r3, r4, parse_label}

pub data QuestionKind : Type 0 where
  noul choice score : QuestionKind

-- `criteria`: absent, a mapping, or an ordered tuple.
pub data Criteria : Type 0 where
  absent : Criteria
  mapping : Dict (Option Json) → Criteria
  ordered : List Json → Criteria

pub record DecisionQuestion : Type 0 where
  pub kind : QuestionKind
  pub instructions : Option Json
  pub criteria : Criteria

-- The class methods of DecisionQuestion.
unfoldable pub noul_question : Json → Option Json → Option Json → DecisionQuestion
unfolding lit
noul_question instructions none none = record {
  kind = noul;
  instructions = some instructions;
  criteria = absent;
}
noul_question instructions yes_text no_text = record {
  kind = noul;
  instructions = some instructions;
  criteria = mapping ((lit "true", yes_text) ∷ (lit "false", no_text) ∷ []);
}

unfoldable pub choice_question : Json → Dict (Option Json) → Res DecisionQuestion
choice_question instructions [] = err (value_error "choice criteria must not be empty")
choice_question instructions (c ∷ cs) =
    ok (record { kind = choice; instructions = some instructions; criteria = mapping (c ∷ cs) })

unfoldable pub score_question : Json → List Json → Res DecisionQuestion
score_question instructions [] = err (value_error "score criteria must not be empty")
score_question instructions (c ∷ cs) =
    ok (record { kind = score; instructions = some instructions; criteria = ordered (c ∷ cs) })

-- `bool | str | float`.
pub data Value : Type 0 where
  flag : Bool → Value
  text : Text → Value
  number : ℤ → Value

pub record DecisionAnswer : Type 0 where
  pub name : Text
  pub kind : QuestionKind
  pub value : Value
  pub certainty : ℤ
  pub probabilities : Dict ℤ
  pub provider_confidence : Option ℤ

pub record DecisionBatch : Type 0 where
  pub engine : Text
  pub model : Text
  pub state_hash : Text
  pub answers : Dict DecisionAnswer
  pub usage : Option (Dict ℤ)

-- DecisionBatch.answer.
unfoldable pub answer : DecisionBatch → Text → Res DecisionAnswer
unfolding get
answer batch name = or_raise (get name batch.answers) (decision_error "decision answer not found")

-- The decision state: a JSON object with the keys that the package writes, or a string or a list.
pub record StateFields : Type 0 where
  pub objective : Option Text
  pub allowed_paths : Option (List Text)
  pub acceptance : Option (List Text)
  pub risk_class : Option Text
  pub provider : Option Text
  pub exit_code : Option ℤ
  pub evidence_complete : Option Bool
  pub checks : Option (List Text)
  pub remaining_concerns : Option (List Text)
  pub worker_result : Option Text
  pub runtime : Dict Json

pub data DecisionState : Type 0 where
  object : StateFields → DecisionState
  plain : Text → DecisionState
  items : List Json → DecisionState

-- The protocol `DecisionEngine`: one call over a shared state.
abbrev pub DecisionEngine : Type 0
DecisionEngine = DecisionState → Dict DecisionQuestion → Res DecisionBatch

pub data DecisionGate : Type 0 where
  auto verify review escalate : DecisionGate

pub record DecisionPolicy : Type 0 where
  pub escalate_below : ℤ
  pub review_below : ℤ
  pub auto_threshold_r0 : ℤ
  pub auto_threshold_r1 : ℤ
  pub auto_threshold_r2 : ℤ
  pub auto_threshold_r3 : ℤ
  pub auto_threshold_r4 : ℤ

-- `DecisionPolicy()`.
abbrev pub default_policy : DecisionPolicy
default_policy = record {
  escalate_below = pos 600;
  review_below = pos 800;
  auto_threshold_r0 = pos 700;
  auto_threshold_r1 = pos 850;
  auto_threshold_r2 = pos 900;
  auto_threshold_r3 = pos 970;
  auto_threshold_r4 = pos 1000;
}

unfoldable pub auto_threshold : DecisionPolicy → Risk → ℤ
auto_threshold policy r0 = policy.auto_threshold_r0
auto_threshold policy r1 = policy.auto_threshold_r1
auto_threshold policy r2 = policy.auto_threshold_r2
auto_threshold policy r3 = policy.auto_threshold_r3
auto_threshold policy r4 = policy.auto_threshold_r4

abbrev class_of : Text → Res Risk
unfolding parse_label upper
class_of risk_class =
    or_raise (parse_label (upper risk_class))
      (value_error "risk_class must be one of R0, R1, R2, R3, R4")

unfoldable pub threshold_for : DecisionPolicy → Text → Res ℤ
unfolding class_of auto_threshold
threshold_for policy risk_class = do risk ← class_of risk_class; ok (auto_threshold policy risk)

abbrev pub is_r0 : Risk → Bool
is_r0 r0 = true
is_r0 _ = false

abbrev pub is_high : Risk → Bool
is_high r3 = true
is_high r4 = true
is_high _ = false

-- The ladder of `gate`, once the certainty is in range and the class is known.
unfoldable pub gate_of : DecisionPolicy → ℤ → Risk → DecisionGate
unfolding auto_threshold
gate_of policy certainty risk =
    if ltb_ℤ certainty policy.escalate_below
    then escalate
    else if is_high risk
    then review
    else if ltb_ℤ certainty policy.review_below
    then review
    else if ltb_ℤ certainty (auto_threshold policy risk)
    then verify
    else if is_r0 risk
    then auto
    else verify

unfoldable pub gate : DecisionPolicy → ℤ → Text → Res DecisionGate
unfolding class_of gate_of
gate policy certainty risk_class = do
  raise_if (not (leb_ℤ (pos 0) certainty && leb_ℤ certainty (pos 1000)))
      (value_error "certainty must be between 0 and 1")
  risk ← class_of risk_class
  ok (gate_of policy certainty risk)
