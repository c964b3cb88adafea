-- ===== src/Providers/Usage.antt =====
-- The token counters that src/durable_threads/providers.py reads out of an output.
use durable_threads.Errors.{Res}
use durable_threads.Prelude.{
  some-injective, ℕ, Text, lit, ◌==◌, contains, lower, Bool, true, false, Option, none, some, List,
  [], ◌∷◌, ◌++◌, ◌≡◌, refl, sym, arith, ℤ, pos, negsuc, if◌then◌else◌, Memb, here, there, ok,
  ok-injective, >>=-eq-ok, subst,
}
use durable_threads.Json.{
  Json, Items, Fields, null, bool, int, float, str, arr, obj, nil, cons, end, field,
}
use durable_threads.Dict.{Dict, put}
use durable_threads.Evidence.Report.{split_lines, reversed}
use durable_threads.Providers.Output.{
  usage_key, count_field, counters, filled, or_next, usage_names, find_usage, usage_in_named,
  usage_in_fields, usage_in_items, first_in, extract_usage,
}

-- The three names that counters are kept under.
abbrev pub usage_targets : List Text
usage_targets = lit "inputTokens" ∷ lit "outputTokens" ∷ lit "totalTokens" ∷ []

-- Counters under these names, each 0 or more.
pub data IsUsage : Dict ℤ → Type 0 where
  no_usage : IsUsage []
  count :
      {key : Text} {n : ℕ} {rest : Dict ℤ}
      → Memb key usage_targets
      → IsUsage rest
      → IsUsage ((key, pos n) ∷ rest)

usage_key-Memb : (key target : Text) → usage_key key ≡ some target → Memb target usage_targets
unfolding usage_key
usage_key-Memb key target h =
    named
      (contains key
        (lit "input_tokens" ∷ lit "inputTokens" ∷ lit "prompt_tokens" ∷ lit "promptTokens" ∷ []))
      (contains key (
        lit "output_tokens"
        ∷ lit "outputTokens"
        ∷ lit "completion_tokens"
        ∷ lit "completionTokens"
        ∷ []))
      (contains key (lit "total_tokens" ∷ lit "totalTokens" ∷ [])) h
  where
    named :
        (a b c : Bool)
        → (if a
            then some (lit "inputTokens")
            else if b
            then some (lit "outputTokens")
            else if c
            then some (lit "totalTokens")
            else none)
          ≡ some target
        → Memb target usage_targets
    named true b c h = here (sym (some-injective h))
    named false true c h = there (here (sym (some-injective h)))
    named false false true h = there (there (here (sym (some-injective h))))
    named false false false h = absurd (ground arith)

put-IsUsage :
    (key : Text) (n : ℕ) (d : Dict ℤ)
    → Memb key usage_targets
    → IsUsage d
    → IsUsage (put key (pos n) d)
unfolding put
put-IsUsage key n [] k u = count k no_usage
put-IsUsage key n ((j, v) ∷ d) k (count m u) = placed (j == key) (put-IsUsage key n d k u)
  where
    placed :
        (b : Bool)
        → IsUsage (put key (pos n) d)
        → IsUsage (if b then (j, pos n) ∷ d else (j, v) ∷ put key (pos n) d)
    placed true rest = count m u
    placed false rest = count m rest

count_field-IsUsage :
    (key : Text) (v : Json) (found : Dict ℤ) → IsUsage found → IsUsage (count_field key v found)
unfolding count_field
count_field-IsUsage key (int (pos n)) found u = counted (usage_key key) (usage_key-Memb key)
  where
    counted :
        (target : Option Text)
        → ((t : Text) → target ≡ some t → Memb t usage_targets)
        → IsUsage (elim target [ some t ↦ put t (pos n) found | none ↦ found ])
    counted none k = u
    counted (some t) k = put-IsUsage t n found (k t refl) u
count_field-IsUsage key (int (negsuc n)) found u = u
count_field-IsUsage key null found u = u
count_field-IsUsage key (bool b) found u = u
count_field-IsUsage key (float z) found u = u
count_field-IsUsage key (str t) found u = u
count_field-IsUsage key (arr vs) found u = u
count_field-IsUsage key (obj fs) found u = u

counters-IsUsage : (fs : Fields) (found : Dict ℤ) → IsUsage found → IsUsage (counters fs found)
unfolding counters
counters-IsUsage end found u = u
counters-IsUsage (field key v fs) found u =
    counters-IsUsage fs (count_field key v found) (count_field-IsUsage key v found u)

-- Nothing, or counters of which there is one at least.
pub data IsFound : Option (Dict ℤ) → Type 0 where
  nothing : IsFound none
  something :
      {key : Text} {n : ℕ} {rest : Dict ℤ}
      → IsUsage ((key, pos n) ∷ rest)
      → IsFound (some ((key, pos n) ∷ rest))

filled-IsFound : (d : Dict ℤ) → IsUsage d → IsFound (filled d)
filled-IsFound [] u = nothing
filled-IsFound ((key, v) ∷ d) (count m u) = something (count m u)

or_next-IsFound : (a b : Option (Dict ℤ)) → IsFound a → IsFound b → IsFound (or_next a b)
or_next-IsFound none b f g = g
or_next-IsFound (some d) b f g = f

named-IsFound :
    (b : Bool) (a r : Option (Dict ℤ))
    → IsFound a
    → IsFound r
    → IsFound (if b then or_next a r else r)
named-IsFound true a r f g = or_next-IsFound a r f g
named-IsFound false a r f g = g

mutual
  unfolding find_usage

  find_usage-IsFound : (v : Json) → IsFound (find_usage v)
  find_usage-IsFound (obj fs) =
      or_next-IsFound _ _ (filled-IsFound (counters fs []) (counters-IsUsage fs [] no_usage))
        (or_next-IsFound (usage_in_named fs) (usage_in_fields fs) (in_named fs) (in_fields fs))
  find_usage-IsFound (arr vs) = in_items vs
  find_usage-IsFound null = nothing
  find_usage-IsFound (bool b) = nothing
  find_usage-IsFound (int z) = nothing
  find_usage-IsFound (float z) = nothing
  find_usage-IsFound (str t) = nothing

  in_named : (fs : Fields) → IsFound (usage_in_named fs)
  in_named end = nothing
  in_named (field k v fs) =
      named-IsFound (contains (lower k) usage_names) (find_usage v) (usage_in_named fs)
        (find_usage-IsFound v) (in_named fs)

  in_fields : (fs : Fields) → IsFound (usage_in_fields fs)
  in_fields end = nothing
  in_fields (field k v fs) =
      or_next-IsFound (find_usage v) (usage_in_fields fs) (find_usage-IsFound v) (in_fields fs)

  in_items : (vs : Items) → IsFound (usage_in_items vs)
  in_items nil = nothing
  in_items (cons v vs) =
      or_next-IsFound (find_usage v) (usage_in_items vs) (find_usage-IsFound v) (in_items vs)

module _ (decode : Text → Res (Option Json)) where
  first_in-IsFound :
      (ts : List Text) (found : Option (Dict ℤ))
      → first_in decode find_usage ts ≡ ok found
      → IsFound found
  unfolding first_in
  first_in-IsFound [] found h = subst IsFound (ok-injective h) nothing
  first_in-IsFound (t ∷ ts) found h =
      let (v, e, same) = >>=-eq-ok (decode t) _ h in read v (first_in-IsFound ts found) same
    where
      of_json :
          (o : Option (Dict ℤ))
          → IsFound o
          → (first_in decode find_usage ts ≡ ok found → IsFound found)
          → (elim o [ some d ↦ ok (some d) | none ↦ first_in decode find_usage ts ]) ≡ ok found
          → IsFound found
      of_json none f rest same = rest same
      of_json (some d) f rest same = subst IsFound (ok-injective same) f

      read :
          (v : Option Json)
          → (first_in decode find_usage ts ≡ ok found → IsFound found)
          → (elim v [
            | some v ↦ elim (find_usage v) [
              | some d ↦ ok (some d)
              | none ↦ first_in decode find_usage ts
            ]
            | none ↦ first_in decode find_usage ts
          ])
            ≡ ok found
          → IsFound found
      read none rest same = rest same
      read (some v) rest same = of_json (find_usage v) (find_usage-IsFound v) rest same

  -- What is read out of an output, where the reading returns, is nothing, or one counter at least;
  -- every counter stands under one of the three names, and none is negative.
  pub extract_usage-IsFound :
      (output : Text) (found : Option (Dict ℤ))
      → extract_usage decode output ≡ ok found
      → IsFound found
  unfolding extract_usage
  extract_usage-IsFound output found =
      first_in-IsFound (reversed [] (split_lines output) ++ output ∷ []) found
