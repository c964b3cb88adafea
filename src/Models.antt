-- ===== src/Models.antt =====
-- The resolution of a model selector in src/durable_threads/routing.py. The texts of the reasons are
-- left out, the selection of workers too.
pub mod Resolved
mod Samples
use durable_threads.Prelude.{
  ℕ, Text, lit, codes, ◌==◌, contains, lower, words, join, replace_char, Bool, true, false, ◌&&◌,
  ◌||◌, Option, none, some, List, [], ◌∷◌, ◌++◌, keep, first, if◌then◌else◌,
}

pub record ModelInfo : Type 0 where
  pub model_id : Text
  pub display_name : Text
  pub tier : Text
  pub is_default : Bool

pub record Resolution : Type 0 where
  pub model : Option ModelInfo
  pub matched : Bool

-- `_normal`.
unfoldable pub normal : Text → Text
normal value = join (codes " ") (words (replace_char b'-' 32 (replace_char b'_' 32 (lower value))))

-- `wanted in names`.
unfoldable pub is_named : Text → ModelInfo → Bool
is_named wanted m =
    wanted == normal m.model_id
    || wanted == normal m.display_name
    || contains wanted (words (normal m.model_id))
    || contains wanted (words (normal m.display_name))

-- `tier_groups.get(wanted)`.
unfoldable pub tier_group : Text → Option (List Text)
tier_group wanted =
    if wanted == lit "frontier"
    then some (lit "frontier" ∷ lit "flagship" ∷ lit "high" ∷ [])
    else if wanted == lit "balanced"
    then some (lit "balanced" ∷ lit "standard" ∷ lit "medium" ∷ [])
    else if wanted == lit "efficient"
    then some (lit "efficient" ∷ lit "low" ∷ lit "mini" ∷ [])
    else none

abbrev pub defaults_first : ModelInfo → List ModelInfo → ModelInfo
defaults_first m ms = elim (first (λ (x : ModelInfo). x.is_default) (m ∷ ms)) [
  | some x ↦ x
  | none ↦ m
]

abbrev pub unmatched : Resolution
unmatched = record { model = none; matched = false }

abbrev pub from_group : List ModelInfo → List ModelInfo → Resolution
from_group models [] = record {
  model = first (λ (x : ModelInfo). x.is_default) models;
  matched = false;
}
from_group models (m ∷ ms) = record { model = some (defaults_first m ms); matched = true }

abbrev pub by_tier : List ModelInfo → Option (List Text) → Resolution
by_tier models none = unmatched
by_tier models (some tiers) =
    from_group models (keep (λ (m : ModelInfo). contains m.tier tiers) models)

abbrev pub by_name : List ModelInfo → Text → Option ModelInfo → Resolution
by_name models wanted (some m) = record { model = some m; matched = true }
by_name models wanted none = by_tier models (tier_group wanted)

unfoldable pub resolve_model : List ModelInfo → Text → Resolution
resolve_model models selector =
    by_name models (normal selector) (first (is_named (normal selector)) models)
