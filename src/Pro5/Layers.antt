-- ===== src/Pro5/Layers.antt =====
-- What the profile of a configuration changes in `audit_config` of pro5.py.
use durable_threads.Prelude.{
  any, contains, ℕ, Text, lit, ◌==◌, ==_iff, Bool, true, false, ◌≡◌, refl, ap, ◌∙◌, subst, Option,
  none, some, List, [], ◌∷◌, ok, >>=-eq-ok, ok-injective, arith, if◌then◌else◌, ◌&&◌, ◌||◌, ◌>>=◌,
}
use durable_threads.Errors.{Res}
use durable_threads.Json.{Json, Fields, end, field, obj, str, get_field, put_field}
use durable_threads.Pro5.{safe_identifier}
use durable_threads.Pro5.Audit.{
  enabled_count, flagged, Audit, overlaid, with_layer, effective_config, audit_effective,
  audit_config, findings_of, flags_of, text_in, expensive, table,
}

-- A dict has each key once.
unfoldable pub IsDict : Fields → Type 0
IsDict end = Unit
IsDict (field k v fs) = (get_field k fs ≡ none) × IsDict fs

get_field-put_field :
    (k j : Text) (v : Json) (fs : Fields)
    → get_field j (put_field k v fs) ≡ (if k == j then some v else get_field j fs)
unfolding get_field put_field
get_field-put_field k j v end = refl
get_field-put_field k j v (field i w fs) =
    ground (arith, ==_iff k j, ==_iff i k, ==_iff i j, get_field-put_field k j v fs)

-- A value of the layer, or none, over the base.
abbrev pub over : Option Json → Option Json → Option Json
over base none = base
over base (some v) = some (overlaid base v)

-- Reading a key of the effective configuration.
get_field-with_layer :
    (key : Text) (base layer : Fields)
    → IsDict layer
    → get_field key (with_layer base layer) ≡ over (get_field key base) (get_field key layer)
unfolding with_layer IsDict get_field
get_field-with_layer key base end d = refl
get_field-with_layer key base (field k v layer) (fresh, d) =
    get_field-with_layer key (put_field k (overlaid (get_field k base) v) base) layer d
    ∙ (ap (λ found. over found (get_field key layer))
          (get_field-put_field k key (overlaid (get_field k base) v) base)
        ∙ written (k == key) refl)
  where
    written :
        (b : Bool)
        → (k == key) ≡ b
        → over
            (if b then some (overlaid (get_field k base) v) else get_field key base)
            (get_field key layer)
          ≡ over (get_field key base) (if b then some v else get_field key layer)
    written true e =
        subst
          (λ i.
            over (some (overlaid (get_field k base) v)) (get_field i layer)
            ≡ over (get_field i base) (some v))
          ((==_iff k key).0 e) (ap (over (some (overlaid (get_field k base) v))) fresh)
    written false e = refl

-- The value of the layer where it has the key, and that of the base elsewhere.
abbrev pub either : Option Json → Option Json → Option Json
either base none = base
either base (some v) = some v

abbrev pub chosen : Text → Fields → Fields → Option Json
chosen key base layer = either (get_field key base) (get_field key layer)

safe_identifier-over :
    (base value : Option Json)
    → safe_identifier (over base value) ≡ safe_identifier (either base value)
unfolding overlaid safe_identifier
safe_identifier-over base none = refl
safe_identifier-over none (some v) = refl
safe_identifier-over (some (obj fs)) (some (obj gs)) = refl
safe_identifier-over (some b) (some (obj gs)) = refl
safe_identifier-over (some b) (some v) = refl

text_in-over :
    (ts : List Text) (base value : Option Json)
    → text_in ts (over base value) ≡ text_in ts (either base value)
unfolding overlaid text_in
text_in-over ts base none = refl
text_in-over ts none (some v) = refl
text_in-over ts (some (obj fs)) (some (obj gs)) = refl
text_in-over ts (some b) (some (obj gs)) = refl
text_in-over ts (some b) (some v) = refl

contains-flagged :
    (code : Text) (flags : List (Bool × Text))
    → contains code (flagged flags) ≡ any (λ (f : Bool × Text). f.0 && code == f.1) flags
unfolding contains flagged any
contains-flagged code [] = refl
contains-flagged code ((true, other) ∷ flags) =
    ap (λ x. code == other || x) (contains-flagged code flags)
contains-flagged code ((false, other) ∷ flags) = contains-flagged code flags

any-first :
    (a b c d e f g : Bool)
    → any
        (λ (x : Bool × Text). x.0 && lit "EXPENSIVE_BASELINE" == x.1)
        ((a, lit "EXPENSIVE_BASELINE")
          ∷ (b, lit "FAST_TIER")
          ∷ (c, lit "MANUAL_CONTEXT")
          ∷ (d, lit "CHILD_INHERITANCE")
          ∷ (e, lit "FANOUT")
          ∷ (f, lit "MCP_CONTEXT")
          ∷ (g, lit "EXPERIMENTAL")
          ∷ [])
      ≡ a
unfolding any lit ◌==◌
any-first a b c d e f g = ground arith

findings_of-expensive :
    (effective agents : Fields) (count : ℕ)
    → contains (lit "EXPENSIVE_BASELINE") (findings_of effective agents count)
      ≡ text_in expensive (get_field (lit "model_reasoning_effort") effective)
unfolding findings_of
findings_of-expensive effective agents count =
    contains-flagged (lit "EXPENSIVE_BASELINE") (flags_of effective agents count)
    ∙ any-first (text_in expensive (get_field (lit "model_reasoning_effort") effective)) _ _ _ _ _ _

effective_config-profile :
    (config profiles layer : Fields) (c : ℕ) (t : Text)
    → get_field (lit "profiles") config ≡ some (obj profiles)
    → get_field (c ∷ t) profiles ≡ some (obj layer)
    → effective_config (some (str (c ∷ t))) config ≡ ok (with_layer config layer)
unfolding effective_config
effective_config-profile config profiles layer c t p l = rw p (rw l refl)

identifier_of_layer :
    (key : Text) (config layer : Fields)
    → IsDict layer
    → safe_identifier (get_field key (with_layer config layer))
      ≡ safe_identifier (chosen key config layer)
identifier_of_layer key config layer d =
    ap safe_identifier (get_field-with_layer key config layer d)
    ∙ safe_identifier-over (get_field key config) (get_field key layer)

-- What the report says of the configuration with a layer.
abbrev Reports : Fields → Fields → Audit → Type 0
Reports config layer a =
    (a.model ≡ safe_identifier (chosen (lit "model") config layer))
    × (a.effort ≡ safe_identifier (chosen (lit "model_reasoning_effort") config layer))
    × (a.service_tier ≡ safe_identifier (chosen (lit "service_tier") config layer))
    × (contains (lit "EXPENSIVE_BASELINE") a.findings
        ≡ text_in expensive (chosen (lit "model_reasoning_effort") config layer))

audit_effective-layer :
    (config layer : Fields) (selected : Option Json) (a : Audit)
    → IsDict layer
    → audit_effective selected (with_layer config layer) ≡ ok a
    → Reports config layer a
unfolding audit_effective
audit_effective-layer config layer selected a d h =
    let effective = with_layer config layer in
    let (agents, e, h') = >>=-eq-ok (table (get_field (lit "agents") effective)) _ h in
    let (servers, e', same) = >>=-eq-ok (table (get_field (lit "mcp_servers") effective)) _ h' in
    subst (Reports config layer) (ok-injective same) (
      identifier_of_layer (lit "model") config layer d,
      identifier_of_layer (lit "model_reasoning_effort") config layer d,
      identifier_of_layer (lit "service_tier") config layer d,
      findings_of-expensive effective agents (enabled_count servers)
          ∙ (ap (text_in expensive)
                (get_field-with_layer (lit "model_reasoning_effort") config layer d)
              ∙ text_in-over expensive (get_field (lit "model_reasoning_effort") config)
                  (get_field (lit "model_reasoning_effort") layer)),
    )

-- If `audit_config` returns for a configuration and a profile that is a table of it, with each key
-- once, then the model, the effort and the tier of the report are the identifiers of the values that
-- the profile sets, or that the rest of the configuration sets where the profile does not, and the
-- report warns of an expensive baseline exactly if that effort is one of the expensive ones.
pub audit_config-profile :
    (config profiles layer : Fields) (c : ℕ) (t : Text) (a : Audit)
    → get_field (lit "profiles") config ≡ some (obj profiles)
    → get_field (c ∷ t) profiles ≡ some (obj layer)
    → IsDict layer
    → audit_config (obj config) (some (c ∷ t)) ≡ ok a
    → (a.model ≡ safe_identifier (chosen (lit "model") config layer))
      × (a.effort ≡ safe_identifier (chosen (lit "model_reasoning_effort") config layer))
      × (a.service_tier ≡ safe_identifier (chosen (lit "service_tier") config layer))
      × (contains (lit "EXPENSIVE_BASELINE") a.findings
          ≡ text_in expensive (chosen (lit "model_reasoning_effort") config layer))
unfolding audit_config
audit_config-profile config profiles layer c t a p l d h =
    let same =
      subst (λ (r : Res Fields). (r >>= audit_effective (some (str (c ∷ t)))) ≡ ok a)
        (effective_config-profile config profiles layer c t p l) h in
    audit_effective-layer config layer (some (str (c ∷ t))) a d same
