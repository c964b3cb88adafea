-- ===== src/Models/Samples.antt =====
-- A catalog of two models.
use durable_threads.Prelude.{
  codes, lit, ◌==◌, contains, lower, words, join, replace_char, split_on, is_space, keep, first,
  true, false, some, [], ◌∷◌, ◌≡◌, refl, Memb,
}
use durable_threads.Models.{ModelInfo, normal, is_named, tier_group, resolve_model}
use durable_threads.Models.Resolved.{IsReason, resolve_model-IsReason}

unfoldable models : Unit {0}
unfolding resolve_model normal is_named tier_group lit ◌==◌ contains lower words join replace_char
    split_on is_space keep first
models = tt

abbrev small : ModelInfo
small = record {
  model_id = codes "x-mini";
  display_name = codes "X Mini";
  tier = codes "low";
  is_default = false;
}

abbrev large : ModelInfo
large = record {
  model_id = codes "x-max";
  display_name = codes "X Max";
  tier = codes "flagship";
  is_default = true;
}

frontier_is_large : (resolve_model (small ∷ large ∷ []) (codes "Frontier")).model ≡ some large
unfolding models
frontier_is_large = refl

resolve_model-IsReason_example :
    Memb large (small ∷ large ∷ [])
    × IsReason
        (codes "Frontier")
        (resolve_model (small ∷ large ∷ []) (codes "Frontier")).matched
        large
resolve_model-IsReason_example =
    resolve_model-IsReason (small ∷ large ∷ []) (codes "Frontier") large frontier_is_large
