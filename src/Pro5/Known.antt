-- ===== src/Pro5/Known.antt =====
-- Identifiers and known models in what the probe of pro5.py lists.
use durable_threads.Prelude.{
  Text, lit, contains, contains-Memb, Bool, true, false, ◌≡◌, refl, sym, subst, inl, inr, Option,
  none, some, some-injective, List, [], ◌∷◌, ◌++◌, map, Memb, here, there, Memb-append, ok, err,
  ok-injective, arith, if◌then◌else◌,
}
use durable_threads.Errors.{Res}
use durable_threads.Json.{get_field, Json, Fields, str}
use durable_threads.Pro5.{safe_identifier, is_identifier, value_at, or_value}
use durable_threads.Pro5.Probe.{
  ModelEntry, known_models, identifier_of, efforts_of, entries_of, dicts_in, models_in, with_model,
  with_entry, listed, effort_names,
}

-- A value that is an identifier, if it is given.
abbrev pub IsNamed : Option Text → Type 0
IsNamed found = (t : Text) → found ≡ some t → is_identifier t ≡ true

pub safe_identifier-IsNamed : (v : Option Json) → IsNamed (safe_identifier v)
unfolding safe_identifier
safe_identifier-IsNamed (some (str s)) t h = named (is_identifier s) refl h
  where
    named :
        (b : Bool)
        → is_identifier s ≡ b
        → (if b then some s else none) ≡ some t
        → is_identifier t ≡ true
    named true e same = subst (λ x. is_identifier x ≡ true) (some-injective same) e
    named false e same = absurd (ground arith)
safe_identifier-IsNamed none t h = absurd (ground arith)
safe_identifier-IsNamed (some v) t h = absurd (ground arith)

-- A model of the report.
pub record IsKnown (e : ModelEntry) : Type 0 where
  pub known : Memb e.model known_models
  pub named : (found : Option Text) → Memb found e.supported_efforts → IsNamed found

abbrev pub AllKnown : List ModelEntry → Type 0
AllKnown entries = (e : ModelEntry) → Memb e entries → IsKnown e

efforts_of-IsNamed :
    (model : Fields) (efforts : List (Option Text))
    → efforts_of model ≡ ok efforts
    → (found : Option Text) → Memb found efforts
    → IsNamed found
unfolding efforts_of identifier_of
efforts_of-IsNamed model efforts h =
    from (dicts_in (get_field (lit "supportedReasoningEfforts") model)) h
  where
    each :
        (items : List Fields) (found : Option Text)
        → Memb found (map (identifier_of (lit "reasoningEffort") (lit "effort")) items)
        → IsNamed found
    each [] found m = elim m [ ]
    each (item ∷ items) found (here e) = subst IsNamed (sym e) (
        safe_identifier-IsNamed
          (some (or_value (value_at (lit "reasoningEffort") item) (value_at (lit "effort") item))))
    each (item ∷ items) found (there m) = each items found m

    from :
        (items : Res (List Fields))
        → effort_names items ≡ ok efforts
        → (found : Option Text) → Memb found efforts
        → IsNamed found
    from (err e) same = absurd (ground arith)
    from (ok items) same =
        λ found m. each items found (subst (Memb found) (sym (ok-injective same)) m)

with_model-AllKnown :
    (model : Fields) (name : Text) (rest : Res (List ModelEntry)) (entries : List ModelEntry)
    → contains name known_models ≡ true
    → ((more : List ModelEntry) → rest ≡ ok more → AllKnown more)
    → with_model name (efforts_of model) rest ≡ ok entries
    → AllKnown entries
with_model-AllKnown model name rest entries k ih h = from (efforts_of model) rest refl ih h
  where
    from :
        (efforts : Res (List (Option Text))) (rest : Res (List ModelEntry))
        → efforts_of model ≡ efforts
        → ((more : List ModelEntry) → rest ≡ ok more → AllKnown more)
        → with_model name efforts rest ≡ ok entries
        → AllKnown entries
    from (err e) rest q ih same = absurd (ground arith)
    from (ok efforts) (err e) q ih same = absurd (ground arith)
    from (ok efforts) (ok more) q ih same = subst AllKnown (ok-injective same) both
      where
        both : AllKnown (record { model = name; supported_efforts = efforts } ∷ more)
        both e (here p) = subst IsKnown (sym p) (record {
          known = contains-Memb name known_models k;
          named = efforts_of-IsNamed model efforts q;
        })
        both e (there m) = ih more refl e m

entries_of-AllKnown :
    (models : List Fields) (entries : List ModelEntry)
    → entries_of models ≡ ok entries
    → AllKnown entries
unfolding entries_of
entries_of-AllKnown [] entries h = λ e m. elim (subst (Memb e) (sym (ok-injective h)) m) [ ]
entries_of-AllKnown (model ∷ models) entries h =
    added (identifier_of (lit "model") (lit "id") model) (entries_of-AllKnown models) h
  where
    picked :
        (b : Bool) (name : Text)
        → contains name known_models ≡ b
        → ((more : List ModelEntry) → entries_of models ≡ ok more → AllKnown more)
        → (if b then with_model name (efforts_of model) (entries_of models) else entries_of models)
          ≡ ok entries
        → AllKnown entries
    picked true name k ih same =
        with_model-AllKnown model name (entries_of models) entries k ih same
    picked false name k ih same = ih entries same

    added :
        (found : Option Text)
        → ((more : List ModelEntry) → entries_of models ≡ ok more → AllKnown more)
        → with_entry model found (entries_of models) ≡ ok entries
        → AllKnown entries
    added none ih same = ih entries same
    added (some name) ih same = picked (contains name known_models) name refl ih same

pub models_in-AllKnown :
    (page : Fields) (entries : List ModelEntry) → models_in page ≡ ok entries → AllKnown entries
models_in-AllKnown page entries h = from (dicts_in (get_field (lit "data") page)) h
  where
    from : (found : Res (List Fields)) → listed found ≡ ok entries → AllKnown entries
    from (ok models) same = entries_of-AllKnown models entries same
    from (err e) same = absurd (ground arith)

pub AllKnown-append : (xs ys : List ModelEntry) → AllKnown xs → AllKnown ys → AllKnown (xs ++ ys)
AllKnown-append xs ys h k e m = elim (Memb-append xs ys m) [ inl l ↦ h e l | inr r ↦ k e r ]
