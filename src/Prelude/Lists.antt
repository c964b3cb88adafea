-- ===== src/Prelude/Lists.antt =====
-- Lists measured by native numbers, and predicates over their members by recursion.
use Prim.Native.Nat.{ℕ, zero, suc, ◌+◌, ◌-◌, min}
use mathlib.Core.Path.{◌≡◌, refl, subst, sym, ap}
use mathlib.Core.Logic.{◌⊎◌, inl, inr}
use mathlib.Core.Bool.{Bool, true, false, ◌&&◌, ◌||◌}
use mathlib.Core.List.{List, [], ◌∷◌, ◌++◌, map}
use mathlib.Core.Option.{Option, none, some}
use native.Mathlib.Omega.{arith}
use durable_threads.Prelude.Tests.{if◌then◌else◌}

module _ {ℓ} {A : Type ℓ} where
  abbrev pub length : List A → ℕ
  length [] = 0
  length (x ∷ xs) = suc (length xs)

  abbrev pub take : ℕ → List A → List A
  take zero xs = []
  take (suc n) [] = []
  take (suc n) (x ∷ xs) = x ∷ take n xs

  abbrev pub drop : ℕ → List A → List A
  drop zero xs = xs
  drop (suc n) [] = []
  drop (suc n) (x ∷ xs) = drop n xs

  -- Python's `any(p(x) for x in xs)` and `all(...)`.
  unfoldable pub any : (A → Bool) → List A → Bool
  any p [] = false
  any p (x ∷ xs) = p x || any p xs

  unfoldable pub all : (A → Bool) → List A → Bool
  all p [] = true
  all p (x ∷ xs) = p x && all p xs

  -- A comprehension with a condition.
  unfoldable pub keep : (A → Bool) → List A → List A
  keep p [] = []
  keep p (x ∷ xs) = let rest = keep p xs in if p x then x ∷ rest else rest

  -- `next((x for x in xs if p(x)), None)`.
  unfoldable pub first : (A → Bool) → List A → Option A
  first p [] = none
  first p (x ∷ xs) = if p x then some x else first p xs

  -- Membership with the position kept.
  pub data Memb (a : A) : List A → Type ℓ where
    here : {x : A} {xs : List A} → a ≡ x → Memb a (x ∷ xs)
    there : {x : A} {xs : List A} → Memb a xs → Memb a (x ∷ xs)

  pub length-append : (xs ys : List A) → length (xs ++ ys) ≡ length xs + length ys
  length-append [] ys = omega arith
  length-append (x ∷ xs) ys = omega (arith, length-append xs ys)

  pub length-take : (n : ℕ) (xs : List A) → length (take n xs) ≡ min n (length xs)
  length-take zero xs = omega arith
  length-take (suc n) [] = omega arith
  length-take (suc n) (x ∷ xs) = omega (arith, length-take n xs)

  pub length-drop : (n : ℕ) (xs : List A) → length (drop n xs) ≡ length xs - n
  length-drop zero xs = omega arith
  length-drop (suc n) [] = omega arith
  length-drop (suc n) (x ∷ xs) = omega (arith, length-drop n xs)

module _ {ℓ} {A : Type ℓ} where
  pub Memb-append : {a : A} (xs ys : List A) → Memb a (xs ++ ys) → Memb a xs ⊎ Memb a ys
  Memb-append [] ys m = inr m
  Memb-append (x ∷ xs) ys (here e) = inl (here e)
  Memb-append (x ∷ xs) ys (there m) = elim (Memb-append xs ys m) [
    | inl l ↦ inl (there l)
    | inr r ↦ inr r
  ]

  pub Memb-append_left : {a : A} (xs ys : List A) → Memb a xs → Memb a (xs ++ ys)
  Memb-append_left [] ys m = elim m [ ]
  Memb-append_left (x ∷ xs) ys (here e) = here e
  Memb-append_left (x ∷ xs) ys (there m) = there (Memb-append_left xs ys m)

  pub Memb-append_right : {a : A} (xs ys : List A) → Memb a ys → Memb a (xs ++ ys)
  Memb-append_right [] ys m = m
  Memb-append_right (x ∷ xs) ys m = there (Memb-append_right xs ys m)

  pub Memb-take : {a : A} (n : ℕ) (xs : List A) → Memb a (take n xs) → Memb a xs
  Memb-take zero xs m = elim m [ ]
  Memb-take (suc n) [] m = elim m [ ]
  Memb-take (suc n) (x ∷ xs) (here e) = here e
  Memb-take (suc n) (x ∷ xs) (there m) = there (Memb-take n xs m)

  -- Every member that a comprehension keeps passes its test and was there.
  pub Memb-keep :
      {a : A} (p : A → Bool) (xs : List A) → Memb a (keep p xs) → (p a ≡ true) × Memb a xs
  unfolding keep
  Memb-keep p [] m = elim m [ ]
  Memb-keep {a} p (x ∷ xs) m = go (p x) refl (Memb-keep p xs) m
    where
      go :
          (b : Bool)
          → p x ≡ b
          → (Memb a (keep p xs) → (p a ≡ true) × Memb a xs)
          → Memb a (if b then x ∷ keep p xs else keep p xs)
          → (p a ≡ true) × Memb a (x ∷ xs)
      go true e ih (here q) = (subst (λ y. p y ≡ true) (sym q) e, here q)
      go true e ih (there k) = ((ih k).0, there (ih k).1)
      go false e ih k = ((ih k).0, there (ih k).1)

-- No value twice.
pub data Distinct {ℓ} {A : Type ℓ} : List A → Type ℓ where
  no_values : Distinct []
  one_more : {x : A} {xs : List A} → (Memb x xs → ⊥) → Distinct xs → Distinct (x ∷ xs)

module _ {ℓ} {A : Type ℓ} where
  pub Memb-kept : {a : A} (p : A → Bool) (xs : List A) → Memb a xs → p a ≡ true → Memb a (keep p xs)
  unfolding keep
  Memb-kept p [] m e = elim m [ ]
  Memb-kept {a} p (x ∷ xs) (here q) e = stay (p x) (subst (λ y. p y ≡ true) q e)
    where
      stay : (b : Bool) → b ≡ true → Memb a (if b then x ∷ keep p xs else keep p xs)
      stay true h = here q
      stay false h = absurd (ground arith)
  Memb-kept {a} p (x ∷ xs) (there m) e = pass (p x) (Memb-kept p xs m e)
    where
      pass : (b : Bool) → Memb a (keep p xs) → Memb a (if b then x ∷ keep p xs else keep p xs)
      pass true k = there k
      pass false k = k

pub length-map {ℓ μ} :
    {A : Type ℓ} {B : Type μ} (f : A → B) (xs : List A) → length (map f xs) ≡ length xs
length-map f [] = refl
length-map f (x ∷ xs) = ap suc (length-map f xs)
