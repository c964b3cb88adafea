-- ===== src/Decisions/Samples.antt =====
-- The gate of the default policy at some certainties.
use durable_threads.Errors.{Res, value_error, type_error}
use durable_threads.Decisions.Stored.{
  answer_from_dict, answer_to_dict, answer_from_dict-answer_to_dict, IsTyped, kind_named, value_of,
}
use durable_threads.Decisions.Jev.{
  JevEngine, WireQuestion, WireAnswer, Response, noul_reply, jev_decide, ask_jev, wire_question,
  wire_of, named_answer, answer_of, largest, largest_value, response_usage,
}
use durable_threads.Prelude.{
  ok-injective, some-injective, there, sym, subst, Memb, here, ◌-ℤ◌, traverse, ◌≤◌, codes, lit,
  ◌==◌, upper, ◌≡◌, refl, some, ok, pos, ◌≤ℤ◌, ◌↔◌, arith, [], ◌∷◌, err,
}
use durable_threads.Risk.{Risk, r0, r1, r2, r3, rank, parse_label, label}
use durable_threads.Decisions.{
  ℤ, is_high, Option, Text, plain, true, flag, Res, [], DecisionQuestion, noul, DecisionBatch, Dict,
  DecisionState, noul_question, none, DecisionAnswer, default_policy, gate, gate_of, auto,
  DecisionGate,
}
use durable_threads.Json.{null, Items, Fields, end, field, bool, str, get_field}
use durable_threads.Decisions.Trusted.{IsProbable, jev_decide-IsGated}
use durable_threads.Decisions.Gate.{severity, gate-auto, gate_mono, gate_returns}

gate_r0 : gate default_policy (pos 900) (codes "r0") ≡ ok auto
unfolding gate upper parse_label label lit ◌==◌
gate_r0 = refl

gate-auto_example :
    (parse_label (upper (codes "r0")) ≡ some r0)
    × (pos 600 ≤ℤ pos 900)
    × (pos 800 ≤ℤ pos 900)
    × (pos 700 ≤ℤ pos 900)
    × (pos 0 ≤ℤ pos 900)
    × (pos 900 ≤ℤ pos 1000)
gate-auto_example = gate-auto default_policy (pos 900) (codes "r0") gate_r0

gate_returns_example :
    ((g : DecisionGate) × (gate default_policy (pos 1200) (codes "R1") ≡ ok g)) ↔ (
      (pos 0 ≤ℤ pos 1200)
      × (pos 1200 ≤ℤ pos 1000)
      × (risk : Risk) × (parse_label (upper (codes "R1")) ≡ some risk))
gate_returns_example = gate_returns default_policy (pos 1200) (codes "R1")

-- An SDK that answers one question with 930 thousandths for yes.
abbrev sure_sdk : JevEngine → DecisionState → Dict WireQuestion → Res Response
sure_sdk engine state wire = ok (record {
  model = codes "jev-1";
  answers = (codes "semantic_complete", noul_reply (pos 930)) ∷ [];
  input_tokens = some (pos 12);
  output_tokens = none;
})

abbrev jev : JevEngine
jev = record {
  model = codes "jev-latest";
  api_key = none;
  base_url = none;
  timeout_seconds = pos 30000;
}

abbrev yes_or_no : Dict DecisionQuestion
yes_or_no = (codes "semantic_complete", noul_question null none none) ∷ []

abbrev sure_answer : DecisionAnswer
sure_answer = record {
  name = codes "semantic_complete";
  kind = noul;
  value = flag true;
  certainty = pos 930;
  probabilities = (codes "true", pos 930) ∷ (codes "false", pos 70) ∷ [];
  provider_confidence = none;
}

abbrev sure_batch : DecisionBatch
sure_batch = record {
  engine = codes "typesafe:system-one";
  model = codes "jev-1";
  state_hash = [];
  answers = (codes "semantic_complete", sure_answer) ∷ [];
  usage = some ((codes "inputTokens", pos 12) ∷ []);
}

sure_sdk-IsProbable :
    (system_one : JevEngine → DecisionState → Dict WireQuestion → Res Response)
    (wire : Dict WireQuestion) (response : Response) (name : Text) (reply : WireAnswer)
    → ◌≡◌ {A = Option (JevEngine → DecisionState → Dict WireQuestion → Res Response)}
        (some sure_sdk)
        (some system_one)
    → system_one jev (plain []) wire ≡ ok response
    → Memb (name, reply) response.answers
    → IsProbable reply
unfolding IsProbable
sure_sdk-IsProbable system_one wire response name reply known returned m =
    let same =
      subst (λ s. s jev (plain []) wire ≡ ok response) (sym (some-injective known)) returned in
    only (
      subst (λ (r : Response). Memb {A = Text × WireAnswer} (name, reply) r.answers)
        (sym (ok-injective same)) m)
  where
    only :
        Memb {A = Text × WireAnswer}
          (name, reply)
          ((codes "semantic_complete", noul_reply (pos 930)) ∷ [])
        → IsProbable reply
    only (here e) =
        subst (λ (x : Text × WireAnswer). IsProbable x.1) (sym e) (omega arith, omega arith)
    only (there m) = elim m [ ]

sure_run : jev_decide (some sure_sdk) (λ s. []) jev (plain []) yes_or_no ≡ ok sure_batch
unfolding jev_decide ask_jev wire_question wire_of named_answer answer_of largest largest_value
    response_usage noul_question lit ◌==◌ traverse ◌-ℤ◌
sure_run = refl

jev_decide-IsGated_example : (g : DecisionGate) × (gate default_policy (pos 930) (label r2) ≡ ok g)
jev_decide-IsGated_example =
    jev_decide-IsGated (some sure_sdk) (λ s. []) default_policy jev (plain []) yes_or_no sure_batch
      sure_sdk-IsProbable sure_run (codes "semantic_complete") sure_answer (here refl) r2

gate_mono_example :
    (severity (gate_of default_policy (pos 900) r1)
      ≤ severity (gate_of default_policy (pos 700) r3))
    × (is_high r3 ≡ true → 2 ≤ severity (gate_of default_policy (pos 700) r3))
unfolding rank
gate_mono_example = gate_mono default_policy (pos 900) (pos 700) r1 r3 (omega arith) (omega (arith))

-- A `float` that reads no text, and a `dict` that takes no list.
abbrev no_text : Text → Res ℤ
no_text t = err (value_error "could not convert string to float")

abbrev no_pairs : Items → Res Fields
no_pairs vs = err (type_error "cannot convert dictionary update sequence element")

answer_from_dict-answer_to_dict_example :
    answer_from_dict no_text no_pairs (codes "semantic_complete") (answer_to_dict sure_answer)
    ≡ ok sure_answer
unfolding IsTyped
answer_from_dict-answer_to_dict_example =
    answer_from_dict-answer_to_dict no_text no_pairs sure_answer tt

-- A choice with a yes or no is refused.
mistyped :
    answer_from_dict no_text no_pairs []
      (field (codes "kind") (str (codes "choice")) (field (codes "value") (bool true) end))
    ≡ err (value_error "choice answer value must be string")
unfolding answer_from_dict kind_named value_of get_field lit ◌==◌
mistyped = refl
