-- ===== src/Prelude/Results.antt =====
-- A Python call that returns or raises; the exception's class and text are its `err` value.
use mathlib.Core.Path.{◌≡◌, refl, sym, ap, ◌∙◌, subst}
use native.Mathlib.Omega.{arith}
use durable_threads.Prelude.Lists.{Memb, here, there, length}
use Prim.Native.Nat.{suc}
use mathlib.Core.Bool.{Bool, true, false}
use mathlib.Core.Option.{Option, none, some}
use mathlib.Core.List.{List, [], ◌∷◌}

pub data Result {ℓ κ} (E : Type κ) (A : Type ℓ) : Type (ℓ ⊔ κ) where
  ok : A → Result E A
  err : E → Result E A

infixl 5 ◌>>=◌ ◌>>◌
abbrev pub ◌>>=◌ {ℓ μ κ} :
    {E : Type κ} {A : Type ℓ} {B : Type μ} → Result E A → (A → Result E B) → Result E B
err raised >>= next = err raised
ok value >>= next = next value

abbrev pub ◌>>◌ {ℓ κ} : {E : Type κ} {B : Type ℓ} → Result E (Unit {0}) → Result E B → Result E B
action >> rest = action >>= λ done. rest

-- `if bad: raise e`.
abbrev pub raise_if {κ} : {E : Type κ} → Bool → E → Result E (Unit {0})
raise_if true e = err e
raise_if false e = ok tt

-- A dictionary lookup whose `KeyError` is turned into `e`.
abbrev pub or_raise {ℓ κ} : {E : Type κ} {A : Type ℓ} → Option A → E → Result E A
or_raise none e = err e
or_raise (some a) e = ok a

-- The value of a call that returned, or `d`.
abbrev pub ok_or {ℓ κ} : {E : Type κ} {A : Type ℓ} → Result E A → A → A
ok_or (ok a) d = a
ok_or (err e) d = d

module _ {ℓ μ κ} {E : Type κ} {A : Type ℓ} {B : Type μ} where
  pub >>=-eq-ok :
      (action : Result E A) (next : A → Result E B) {final : B}
      → (action >>= next) ≡ ok final
      → (value : A) × (action ≡ ok value) × (next value ≡ ok final)
  >>=-eq-ok (err raised) next h = cc
  >>=-eq-ok (ok value) next h = (value, refl, h)

  -- `tuple(f(x) for x in xs)` where `f` may raise: the first exception ends it.
  unfoldable pub traverse : (A → Result E B) → List A → Result E (List B)
  traverse f [] = ok []
  traverse f (x ∷ xs) = do y ← f x; ys ← traverse f xs; ok (y ∷ ys)

module _ {ℓ κ} {E : Type κ} {A : Type ℓ} where
  pub ok-injective : {a b : A} → ◌≡◌ {A = Result E A} (ok a) (ok b) → a ≡ b
  ok-injective h = cc

pub some-injective {ℓ} : {A : Type ℓ} {a b : A} → ◌≡◌ {A = Option A} (some a) (some b) → a ≡ b
some-injective h = cc

-- Every result of a comprehension comes from an item.
module _ {ℓ μ κ} {E : Type κ} {A : Type ℓ} {B : Type μ} where
  pub traverse-Memb :
      (f : A → Result E B) (xs : List A) (ys : List B)
      → traverse f xs ≡ ok ys
      → (y : B) → Memb y ys
      → (x : A) × Memb x xs × (f x ≡ ok y)
  unfolding traverse
  traverse-Memb f [] [] h y m = elim m [ ]
  traverse-Memb f [] (z ∷ zs) h y m = absurd (ground arith)
  traverse-Memb f (x ∷ xs) ys h y m =
      let (z, e₁, h₁) = >>=-eq-ok (f x) _ h in
      let (zs, e₂, same) = >>=-eq-ok (traverse f xs) _ h₁ in
      found z zs e₁ (traverse-Memb f xs zs e₂ y) (subst (Memb y) (sym (ok-injective same)) m)
    where
      found :
          (z : B) (zs : List B)
          → f x ≡ ok z
          → (Memb y zs → (w : A) × Memb w xs × (f w ≡ ok y))
          → Memb y (z ∷ zs)
          → (w : A) × Memb w (x ∷ xs) × (f w ≡ ok y)
      found z zs e ih (here q) = (x, here refl, e ∙ ap ok (sym q))
      found z zs e ih (there k) = let (w, i, g) = ih k in (w, there i, g)

  pub length-traverse :
      (f : A → Result E B) (xs : List A) (ys : List B)
      → traverse f xs ≡ ok ys
      → length ys ≡ length xs
  unfolding traverse
  length-traverse f [] ys h = ap length (sym (ok-injective h))
  length-traverse f (x ∷ xs) ys h =
      let (z, e₁, h₁) = >>=-eq-ok (f x) _ h in
      let (zs, e₂, same) = >>=-eq-ok (traverse f xs) _ h₁ in
      ap length (sym (ok-injective same)) ∙ ap suc (length-traverse f xs zs e₂)
