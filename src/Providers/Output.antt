-- ===== src/Providers/Output.antt =====
-- What src/durable_threads/providers.py keeps of a process's output: the bounded texts, the session and
-- the token counters. `decode` is `json.loads`, none where it raises `JSONDecodeError`; another
-- exception of it (a ValueError for an int of too many digits, a RecursionError) is raised on.
use durable_threads.Errors.{Res}
use durable_threads.Prelude.{
  ◌+◌, ◌/◌, ◌-◌, ℕ, Text, lit, contains, lower, strip, nonblank, ◌&&◌, Option, none, some, List, [],
  ◌∷◌, ◌++◌, if◌then◌else◌, ℤ, pos, leb, length, take, drop, ok, ◌>>=◌,
}
use durable_threads.Json.{Json, Items, Fields, str, int, arr, obj, nil, cons, end, field}
use durable_threads.Dict.{Dict, put}
use durable_threads.Evidence.Report.{split_lines, reversed}

-- The text between the two ends of a truncated output.
abbrev pub marker : Text
marker = 10 ∷ (lit "[output truncated]" ++ 10 ∷ [])

-- `value[-n:]`, for `n` that is not 0.
abbrev pub last_of : ℕ → Text → Text
last_of n value = drop (length value - n) value

-- `_bounded`.
unfoldable pub bounded : Text → ℕ → Text
bounded value limit =
    let head = (limit - length marker) / 2 in
    if leb (length value) limit
    then value
    else if leb limit (length marker + 2)
    then take limit value
    else take head value ++ (marker ++ last_of ((limit - length marker) - head) value)

abbrev at_least_one : ℕ → ℕ
at_least_one n = if leb n 1 then 1 else n

-- `_bounded` of src/durable_threads/execution.py, for a limit that is at least the marker's length.
-- With a smaller one Python's difference is negative, and both `max` give 1, as here.
unfoldable pub execution_bounded : Text → ℕ → Text
execution_bounded value limit =
    let head = at_least_one ((limit - length marker) / 2) in
    if leb (length value) limit
    then value
    else take head value
      ++ (marker ++ last_of (at_least_one ((limit - length marker) - head)) value)

abbrev pub session_keys : List Text
session_keys =
    lit "session_id"
    ∷ lit "sessionId"
    ∷ lit "chat_id"
    ∷ lit "chatId"
    ∷ lit "agent_id"
    ∷ lit "agentId"
    ∷ []

-- The first loop of `_find_session_id`.
unfoldable pub session_field : Fields → Option Text
session_field end = none
session_field (field k (str t) fs) =
    if contains k session_keys && nonblank t then some (strip t) else session_field fs
session_field (field k v fs) = session_field fs

abbrev pub or_next {ℓ} : {A : Type ℓ} → Option A → Option A → Option A
or_next none next = next
or_next (some a) next = some a

unfoldable mutual
  -- `_find_session_id`.
  pub find_session_id : Json → Option Text
  find_session_id (obj fs) = or_next (session_field fs) (session_in_fields fs)
  find_session_id (arr vs) = session_in_items vs
  find_session_id _ = none

  pub session_in_items : Items → Option Text
  session_in_items nil = none
  session_in_items (cons v vs) = or_next (find_session_id v) (session_in_items vs)

  pub session_in_fields : Fields → Option Text
  session_in_fields end = none
  session_in_fields (field k v fs) = or_next (find_session_id v) (session_in_fields fs)

-- `_USAGE_KEYS.get(key)`.
unfoldable pub usage_key : Text → Option Text
usage_key key =
    if contains key
      (lit "input_tokens" ∷ lit "inputTokens" ∷ lit "prompt_tokens" ∷ lit "promptTokens" ∷ [])
    then some (lit "inputTokens")
    else if contains key (
        lit "output_tokens"
        ∷ lit "outputTokens"
        ∷ lit "completion_tokens"
        ∷ lit "completionTokens"
        ∷ [])
    then some (lit "outputTokens")
    else if contains key (lit "total_tokens" ∷ lit "totalTokens" ∷ [])
    then some (lit "totalTokens")
    else none

-- The body of the first loop of `_find_usage`.
unfoldable pub count_field : Text → Json → Dict ℤ → Dict ℤ
count_field key (int (pos n)) found = elim (usage_key key) [
  | some target ↦ put target (pos n) found
  | none ↦ found
]
count_field key v found = found

unfoldable pub counters : Fields → Dict ℤ → Dict ℤ
counters end found = found
counters (field key v fs) found = counters fs (count_field key v found)

abbrev pub filled : Dict ℤ → Option (Dict ℤ)
filled [] = none
filled (e ∷ d) = some (e ∷ d)

abbrev pub usage_names : List Text
usage_names = lit "usage" ∷ lit "usage_metadata" ∷ lit "token_usage" ∷ lit "tokenusage" ∷ []

unfoldable mutual
  -- `_find_usage`.
  pub find_usage : Json → Option (Dict ℤ)
  find_usage (obj fs) =
      or_next (filled (counters fs [])) (or_next (usage_in_named fs) (usage_in_fields fs))
  find_usage (arr vs) = usage_in_items vs
  find_usage _ = none

  pub usage_in_named : Fields → Option (Dict ℤ)
  usage_in_named end = none
  usage_in_named (field k v fs) =
      let found = find_usage v in
      let rest = usage_in_named fs in
      if contains (lower k) usage_names then or_next found rest else rest

  pub usage_in_fields : Fields → Option (Dict ℤ)
  usage_in_fields end = none
  usage_in_fields (field k v fs) = or_next (find_usage v) (usage_in_fields fs)

  pub usage_in_items : Items → Option (Dict ℤ)
  usage_in_items nil = none
  usage_in_items (cons v vs) = or_next (find_usage v) (usage_in_items vs)

module _ (decode : Text → Res (Option Json)) where
  -- The first of the texts in which `find` finds something.
  unfoldable pub first_in {ℓ} : {A : Type ℓ} → (Json → Option A) → List Text → Res (Option A)
  first_in find [] = ok none
  first_in find (t ∷ ts) = do
    read ← decode t
    elim read [
      | some v ↦ elim (find v) [ some a ↦ ok (some a) | none ↦ first_in find ts ]
      | none ↦ first_in find ts
    ]

  -- The lines from the last one on, then the whole output.
  unfoldable pub extract_session_id : Text → Res (Option Text)
  extract_session_id output =
      first_in find_session_id (reversed [] (split_lines output) ++ output ∷ [])

  unfoldable pub extract_usage : Text → Res (Option (Dict ℤ))
  extract_usage output = first_in find_usage (reversed [] (split_lines output) ++ output ∷ [])
