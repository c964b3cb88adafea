-- ===== src/Decisions/Stored.antt =====
-- How answers and batches of src/durable_threads/decisions.py are stored: `to_dict` and
-- `answer_from_dict`. `float_of` is the conversion `float` of a text, and `pairs` is `dict` of a list
-- that has items.
use durable_threads.Prelude.{
  Text, lit, ◌==◌, ◌≡◌, refl, Option, none, some, [], ◌∷◌, ok, err, ◌>>=◌, or_raise, ℤ, pos, leb,
  if◌then◌else◌, thousand, float_limit, magnitude,
}
use durable_threads.Errors.{Res, value_error, type_error, key_error, overflow_error}
use durable_threads.Json.{
  Json, Fields, Items, null, bool, int, float, str, arr, obj, nil, cons, end, field, get_field,
}
use durable_threads.Dict.{Dict}
use durable_threads.Decisions.{
  QuestionKind, noul, choice, score, Value, flag, text, number, DecisionAnswer, DecisionBatch,
}

-- `kind.value`.
unfoldable pub kind_name : QuestionKind → Text
unfolding lit
kind_name noul = lit "noul"
kind_name choice = lit "choice"
kind_name score = lit "score"

-- `QuestionKind(name)`.
unfoldable pub kind_named : Text → Res QuestionKind
unfolding lit ◌==◌
kind_named t =
    if t == lit "noul"
    then ok noul
    else if t == lit "choice"
    then ok choice
    else if t == lit "score"
    then ok score
    else err (value_error "not a valid QuestionKind")

abbrev value_json : Value → Json
value_json (flag b) = bool b
value_json (text t) = str t
value_json (number z) = float z

unfoldable pub floats_json : Dict ℤ → Fields
floats_json [] = end
floats_json ((k, z) ∷ d) = field k (float z) (floats_json d)

abbrev confidence_json : Option ℤ → Json
confidence_json none = null
confidence_json (some z) = float z

-- DecisionAnswer.to_dict.
unfoldable pub answer_to_dict : DecisionAnswer → Fields
unfolding lit kind_name floats_json
answer_to_dict a = field (lit "name") (str a.name) (
    field (lit "kind") (str (kind_name a.kind)) (
      field (lit "value") (value_json a.value) (
        field (lit "certainty") (float a.certainty) (
          field (lit "probabilities") (obj (floats_json a.probabilities))
            (field (lit "providerConfidence") (confidence_json a.provider_confidence) end)))))

unfoldable pub answers_json : Dict DecisionAnswer → Fields
unfolding answer_to_dict
answers_json [] = end
answers_json ((k, a) ∷ d) = field k (obj (answer_to_dict a)) (answers_json d)

-- The counters are whole numbers.
unfoldable pub ints_json : Dict ℤ → Fields
ints_json [] = end
ints_json ((k, z) ∷ d) = field k (int z) (ints_json d)

abbrev counters_json : Option (Dict ℤ) → Json
counters_json none = null
counters_json (some d) = obj (ints_json d)

-- DecisionBatch.to_dict.
unfoldable pub batch_to_dict : DecisionBatch → Fields
unfolding lit answers_json ints_json
batch_to_dict b = field (lit "engine") (str b.engine) (
    field (lit "model") (str b.model) (
      field (lit "stateHash") (str b.state_hash) (
        field (lit "answers") (obj (answers_json b.answers))
          (field (lit "usage") (counters_json b.usage) end))))

-- The value that the kind allows.
unfoldable pub value_of : QuestionKind → Json → Res Value
value_of noul (bool b) = ok (flag b)
value_of noul v = err (value_error "noul answer value must be boolean")
value_of choice (str t) = ok (text t)
value_of choice v = err (value_error "choice answer value must be string")
value_of score (bool b) = ok (flag b)
value_of score (int z) = ok (number (thousand z))
value_of score (float z) = ok (number z)
value_of score v = err (value_error "score answer value must be numeric")

abbrev text_of_kind : Json → Res QuestionKind
text_of_kind (str t) = kind_named t
text_of_kind v = err (value_error "not a valid QuestionKind")

module _ (float_of : Text → Res ℤ) (pairs : Items → Res Fields) where
  -- `float(value)`.
  unfoldable pub to_float : Json → Res ℤ
  unfolding float_limit
  to_float (bool b) = ok (if b then pos 1000 else pos 0)
  to_float (int z) =
      if leb float_limit (magnitude z)
      then err (overflow_error "int too large to convert to float")
      else ok (thousand z)
  to_float (float z) = ok z
  to_float (str t) = float_of t
  to_float v = err (type_error "float() argument must be a string or a real number")

  -- `dict(value)`.
  unfoldable pub to_dict : Json → Res Fields
  to_dict (obj fs) = ok fs
  to_dict (arr nil) = ok end
  to_dict (arr (cons v vs)) = pairs (cons v vs)
  to_dict (str []) = ok end
  to_dict (str (c ∷ t)) = err (value_error "dictionary update sequence element has length 1")
  to_dict v = err (type_error "object is not iterable")

  unfoldable pub floats_of : Fields → Res (Dict ℤ)
  unfolding to_float
  floats_of end = ok []
  floats_of (field k v fs) = do z ← to_float v; d ← floats_of fs; ok ((k, z) ∷ d)

  abbrev probabilities_of : Option Json → Res (Dict ℤ)
  probabilities_of none = ok []
  probabilities_of (some v) = do fs ← to_dict v; floats_of fs

  abbrev confidence_of : Option Json → Res (Option ℤ)
  confidence_of none = ok none
  confidence_of (some null) = ok none
  confidence_of (some v) = do z ← to_float v; ok (some z)

  unfoldable pub answer_from_dict : Text → Fields → Res DecisionAnswer
  unfolding get_field lit kind_named value_of to_float to_dict floats_of
  answer_from_dict name payload = do
    kind_value ← or_raise (get_field (lit "kind") payload) (key_error "kind")
    kind ← text_of_kind kind_value
    given ← or_raise (get_field (lit "value") payload) (key_error "value")
    value ← value_of kind given
    probabilities ← probabilities_of (get_field (lit "probabilities") payload)
    certainty_value ← or_raise (get_field (lit "certainty") payload) (key_error "certainty")
    certainty ← to_float certainty_value
    provider_confidence ← confidence_of (get_field (lit "providerConfidence") payload)
    ok (record {
      name = name;
      kind = kind;
      value = value;
      certainty = certainty;
      probabilities = probabilities;
      provider_confidence = provider_confidence;
    })

-- The kind and the value belong together.
unfoldable pub IsTyped : QuestionKind → Value → Type 0
IsTyped noul (flag b) = Unit
IsTyped choice (text t) = Unit
IsTyped score (flag b) = Unit
IsTyped score (number z) = Unit
IsTyped kind v = ⊥

floats_of-floats_json :
    (float_of : Text → Res ℤ) (pairs : Items → Res Fields) (d : Dict ℤ)
    → floats_of float_of pairs (floats_json d) ≡ ok d
unfolding floats_of floats_json to_float
floats_of-floats_json float_of pairs [] = refl
floats_of-floats_json float_of pairs ((k, z) ∷ d) = rw (floats_of-floats_json float_of pairs d) refl

value_of-value_json :
    (kind : QuestionKind) (v : Value) → IsTyped kind v → value_of kind (value_json v) ≡ ok v
unfolding value_of IsTyped
value_of-value_json noul (flag b) h = refl
value_of-value_json choice (text t) h = refl
value_of-value_json score (flag b) h = refl
value_of-value_json score (number z) h = refl
value_of-value_json kind v h = absurd h

kind_named-kind_name : (kind : QuestionKind) → kind_named (kind_name kind) ≡ ok kind
unfolding kind_named kind_name lit ◌==◌
kind_named-kind_name noul = refl
kind_named-kind_name choice = refl
kind_named-kind_name score = refl

confidence_of-confidence_json :
    (float_of : Text → Res ℤ) (pairs : Items → Res Fields) (c : Option ℤ)
    → confidence_of float_of pairs (some (confidence_json c)) ≡ ok c
unfolding to_float
confidence_of-confidence_json float_of pairs none = refl
confidence_of-confidence_json float_of pairs (some z) = refl

-- An answer whose value is of its kind (a yes or no for noul, a text for choice, a number or a yes or no for
-- score) is read back from what `to_dict` makes of it, whatever `float` and `dict` do with the
-- values that a stored answer never holds.
pub answer_from_dict-answer_to_dict :
    (float_of : Text → Res ℤ) (pairs : Items → Res Fields) (a : DecisionAnswer)
    → IsTyped a.kind a.value
    → answer_from_dict float_of pairs a.name (answer_to_dict a) ≡ ok a
unfolding answer_from_dict answer_to_dict to_dict to_float get_field lit ◌==◌
answer_from_dict-answer_to_dict float_of pairs a h = rw (kind_named-kind_name a.kind) (
    rw (value_of-value_json a.kind a.value h) (
      rw (floats_of-floats_json float_of pairs a.probabilities)
        (rw (confidence_of-confidence_json float_of pairs a.provider_confidence) refl)))
