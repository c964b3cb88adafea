-- ===== src/Models/Resolved.antt =====
-- What `resolve_model` of src/durable_threads/routing.py names, and why.
use durable_threads.Prelude.{
  Text, Bool, true, false, Option, none, some, List, [], ◌∷◌, ◌≡◌, refl, inl, inr, first, Memb,
  here, there, Memb-keep, Bool-cases, contains, sym, ◌∙◌, subst,
}
use durable_threads.Models.{
  ModelInfo, Resolution, normal, is_named, tier_group, defaults_first, from_group, by_tier, by_name,
  resolve_model,
}

some-same : {x y : ModelInfo} → some x ≡ some y → x ≡ y
some-same h = cc

first-Memb :
    (p : ModelInfo → Bool) (ms : List ModelInfo) (m : ModelInfo)
    → first p ms ≡ some m
    → Memb m ms × (p m ≡ true)
unfolding first
first-Memb p [] m h = absurd cc
first-Memb p (x ∷ xs) m h = elim (Bool-cases (p x)) [
  | inl e ↦
      let same = some-same (simp e at h) in
      (here (sym same), subst (λ (y : ModelInfo). p y ≡ true) same e)
  | inr e ↦ let (k, q) = first-Memb p xs m (simp e at h) in (there k, q)
]

-- Why a resolution names a model: its name, its tier, or, unmatched, that it is the default.
pub data IsReason (selector : Text) (matched : Bool) (m : ModelInfo) : Type 0 where
  by_its_name : matched ≡ true → is_named (normal selector) m ≡ true → IsReason selector matched m
  by_its_tier :
      matched ≡ true
      → (tiers : List Text) → tier_group (normal selector) ≡ some tiers
      → contains m.tier tiers ≡ true
      → IsReason selector matched m
  by_default : matched ≡ false → m.is_default ≡ true → IsReason selector matched m

module _ (models : List ModelInfo) (selector : Text) where
  defaults_first-Memb : (m : ModelInfo) (ms : List ModelInfo) → Memb (defaults_first m ms) (m ∷ ms)
  defaults_first-Memb m ms =
      go (first (λ (x : ModelInfo). x.is_default) (m ∷ ms)) (λ y e. (first-Memb _ (m ∷ ms) y e).0)
    where
      go :
          (o : Option ModelInfo)
          → ((y : ModelInfo) → o ≡ some y → Memb y (m ∷ ms))
          → Memb (elim o [ some x ↦ x | none ↦ m ]) (m ∷ ms)
      go none f = here refl
      go (some y) f = f y refl

  Named : Resolution → Type 0
  Named r = (m : ModelInfo) → r.model ≡ some m → Memb m models × IsReason selector r.matched m

  from_group-Named :
      (tiers : List Text) (group : List ModelInfo)
      → tier_group (normal selector) ≡ some tiers
      → ((x : ModelInfo) → Memb x group → (contains x.tier tiers ≡ true) × Memb x models)
      → Named (from_group models group)
  unfolding Named
  from_group-Named tiers [] t f m h =
      let (k, q) = first-Memb (λ (x : ModelInfo). x.is_default) models m h in (k, by_default refl q)
  from_group-Named tiers (x ∷ xs) t f m h =
      let (tier, k) =
        f m (subst (λ (y : ModelInfo). Memb y (x ∷ xs)) (some-same h) (defaults_first-Memb x xs)) in
      (k, by_its_tier refl tiers t tier)

  by_tier-Named :
      (o : Option (List Text)) → tier_group (normal selector) ≡ o → Named (by_tier models o)
  unfolding Named
  by_tier-Named none t m h = absurd cc
  by_tier-Named (some tiers) t m h =
      from_group-Named tiers _ t
        (λ x k. Memb-keep (λ (y : ModelInfo). contains y.tier tiers) models k) m h

  by_name-Named :
      (o : Option ModelInfo)
      → first (is_named (normal selector)) models ≡ o
      → Named (by_name models (normal selector) o)
  unfolding Named
  by_name-Named none e m h = by_tier-Named _ refl m h
  by_name-Named (some x) e m h =
      let (k, q) = first-Memb (is_named (normal selector)) models m (e ∙ h) in
      (k, by_its_name refl q)

  -- A model that `resolve_model` names is one of the catalog: matched, it has the name that was asked
  -- for or a tier of the role that was asked for; not matched, it is a default of the catalog.
  pub resolve_model-IsReason :
      (m : ModelInfo)
      → (resolve_model models selector).model ≡ some m
      → Memb m models × IsReason selector (resolve_model models selector).matched m
  unfolding resolve_model Named
  resolve_model-IsReason m h = by_name-Named _ refl m h
