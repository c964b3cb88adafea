-- ===== src/Dict.antt =====
-- A Python `dict` with string keys, as the list of its items in insertion order: writing a key that
-- is there keeps its place, a new key goes to the end.
use durable_threads.Prelude.{
  Text, ◌==◌, ==_iff, ◌≡◌, refl, Bool, Option, none, some, List, [], ◌∷◌, map, arith, if◌then◌else◌,
  is_some,
}

abbrev pub Dict {ℓ} : Type ℓ → Type ℓ
Dict V = List (Text × V)

module _ {ℓ} {V : Type ℓ} where
  -- `d.get(key)`.
  unfoldable pub get : Text → Dict V → Option V
  unfolding ◌==◌
  get k [] = none
  get k ((j, v) ∷ d) = if j == k then some v else get k d

  -- `d[key] = value`.
  unfoldable pub put : Text → V → Dict V → Dict V
  unfolding ◌==◌
  put k v [] = (k, v) ∷ []
  put k v ((j, w) ∷ d) = let rest = put k v d in if j == k then (j, v) ∷ d else (j, w) ∷ rest

  unfoldable pub has : Text → Dict V → Bool
  unfolding get
  has k d = is_some (get k d)

  abbrev pub keys : Dict V → List Text
  keys = map (λ e. e.0)

  abbrev pub values : Dict V → List V
  values = map (λ e. e.1)

-- Reading after writing.
module _ {ℓ} {V : Type ℓ} where
  pub get-put :
      (k j : Text) (v : V) (d : Dict V) → get j (put k v d) ≡ (if k == j then some v else get j d)
  unfolding get put
  get-put k j v [] = refl
  get-put k j v ((i, w) ∷ d) = ground (arith, ==_iff k j, ==_iff i k, ==_iff i j, get-put k j v d)
