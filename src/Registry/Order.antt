-- ===== src/Registry/Order.antt =====
-- `sorted` of the registry: the order of its key, and that nothing is lost or added.
use durable_threads.Prelude.{
  Text, text_ltb, true, false, List, [], ◌∷◌, ◌≡◌, refl, ◌⊎◌, inl, inr, arith, Memb, here, there,
  Bool-cases, take, ℕ, zero, suc,
}
use durable_threads.Registry.{ExecutionSelection, is_before, insert, sorted}

text_ltb_trans : (r s t : Text) → text_ltb s r ≡ false → text_ltb t s ≡ false → text_ltb t r ≡ false
unfolding text_ltb
text_ltb_trans [] s [] h k = refl
text_ltb_trans [] s (c ∷ t) h k = refl
text_ltb_trans (a ∷ r) [] t h k = ground arith
text_ltb_trans (a ∷ r) (b ∷ s) [] h k = ground arith
text_ltb_trans (a ∷ r) (b ∷ s) (c ∷ t) h k = ground (arith, text_ltb_trans r s t)

text_ltb_asym : (s t : Text) → text_ltb s t ≡ true → text_ltb t s ≡ false
unfolding text_ltb
text_ltb_asym [] [] h = refl
text_ltb_asym [] (d ∷ t) h = refl
text_ltb_asym (c ∷ s) [] h = ground arith
text_ltb_asym (c ∷ s) (d ∷ t) h = ground (arith, text_ltb_asym s t)

pub is_before_trans :
    (a b c : ExecutionSelection)
    → is_before a b ≡ true
    → is_before b c ≡ true
    → is_before a c ≡ true
unfolding is_before
is_before_trans a b c h k =
    let t =
      text_ltb_trans a.descriptor.executor_id b.descriptor.executor_id c.descriptor.executor_id in
    ground arith

pub is_before_total : (a b : ExecutionSelection) → is_before a b ≡ false → is_before b a ≡ true
unfolding is_before
is_before_total a b h =
    let t = text_ltb_asym b.descriptor.executor_id a.descriptor.executor_id in ground arith

head_or_rest :
    {s x : ExecutionSelection} {ts : List ExecutionSelection}
    → Memb x (s ∷ ts)
    → (x ≡ s) ⊎ Memb x ts
head_or_rest (here e) = inl e
head_or_rest (there m) = inr m

behind_head :
    {s x t : ExecutionSelection} {ts rest : List ExecutionSelection}
    → (Memb x rest → (x ≡ s) ⊎ Memb x ts)
    → Memb x (t ∷ rest)
    → (x ≡ s) ⊎ Memb x (t ∷ ts)
behind_head f (here e) = inr (here e)
behind_head f (there m) = elim (f m) [ inl e ↦ inl e | inr k ↦ inr (there k) ]

pub Memb-insert :
    (s x : ExecutionSelection) (ts : List ExecutionSelection)
    → Memb x (insert s ts)
    → (x ≡ s) ⊎ Memb x ts
unfolding insert
Memb-insert s x [] m = head_or_rest m
Memb-insert s x (t ∷ ts) m = elim (Bool-cases (is_before s t)) [
  | inl e ↦ head_or_rest (simp e at m)
  | inr e ↦ behind_head (Memb-insert s x ts) (simp e at m)
]

pub insert-Memb :
    (s x : ExecutionSelection) (ts : List ExecutionSelection)
    → (x ≡ s) ⊎ Memb x ts
    → Memb x (insert s ts)
unfolding insert
insert-Memb s x [] (inl e) = here e
insert-Memb s x [] (inr m) = elim m [ ]
insert-Memb s x (t ∷ ts) h = elim (Bool-cases (is_before s t)) [
  | inl e ↦ rw e (elim h [ inl q ↦ here q | inr m ↦ there m ])
  | inr e ↦ rw e (put_behind s x t ts (insert-Memb s x ts) h)
]
  where
    put_behind :
        (s x t : ExecutionSelection) (ts : List ExecutionSelection)
        → ((x ≡ s) ⊎ Memb x ts → Memb x (insert s ts))
        → (x ≡ s) ⊎ Memb x (t ∷ ts)
        → Memb x (t ∷ insert s ts)
    put_behind s x t ts f (inl q) = there (f (inl q))
    put_behind s x t ts f (inr (here q)) = here q
    put_behind s x t ts f (inr (there m)) = there (f (inr m))

pub sorted-Memb :
    (x : ExecutionSelection) (ss : List ExecutionSelection) → Memb x ss → Memb x (sorted ss)
unfolding sorted
sorted-Memb x [] m = elim m [ ]
sorted-Memb x (s ∷ ss) (here e) = insert-Memb s x (sorted ss) (inl e)
sorted-Memb x (s ∷ ss) (there m) = insert-Memb s x (sorted ss) (inr (sorted-Memb x ss m))

pub Memb-sorted :
    (x : ExecutionSelection) (ss : List ExecutionSelection) → Memb x (sorted ss) → Memb x ss
unfolding sorted
Memb-sorted x [] m = m
Memb-sorted x (s ∷ ss) m = elim (Memb-insert s x (sorted ss) m) [
  | inl e ↦ here e
  | inr k ↦ there (Memb-sorted x ss k)
]

-- Nothing stands in front of a member that should come before it.
pub data Ordered : List ExecutionSelection → Type 0 where
  none_left : Ordered []
  in_front :
      {s : ExecutionSelection} {ss : List ExecutionSelection}
      → ((x : ExecutionSelection) → Memb x ss → is_before s x ≡ true)
      → Ordered ss
      → Ordered (s ∷ ss)

insert-Ordered :
    (s : ExecutionSelection) (ts : List ExecutionSelection) → Ordered ts → Ordered (insert s ts)
unfolding insert
insert-Ordered s [] o = in_front (λ x m. elim m [ ]) none_left
insert-Ordered s (t ∷ ts) (in_front first rest) = elim (Bool-cases (is_before s t)) [
  | inl e ↦ rw e (in_front (before_all e) (in_front first rest))
  | inr e ↦ rw e (in_front (λ x m. stays e x (Memb-insert s x ts m)) (insert-Ordered s ts rest))
]
  where
    before_all :
        is_before s t ≡ true → (x : ExecutionSelection) → Memb x (t ∷ ts) → is_before s x ≡ true
    before_all e x (here q) = rw q e
    before_all e x (there m) = is_before_trans s t x e (first x m)

    stays :
        is_before s t ≡ false
        → (x : ExecutionSelection) → (x ≡ s) ⊎ Memb x ts
        → is_before t x ≡ true
    stays e x (inl q) = rw q (is_before_total s t e)
    stays e x (inr m) = first x m

pub sorted-Ordered : (ss : List ExecutionSelection) → Ordered (sorted ss)
unfolding sorted
sorted-Ordered [] = none_left
sorted-Ordered (s ∷ ss) = insert-Ordered s (sorted ss) (sorted-Ordered ss)

-- A member is among the first `n`, or behind all of them.
pub taken_or_behind :
    (n : ℕ) (ss : List ExecutionSelection) (x : ExecutionSelection)
    → Ordered ss
    → Memb x ss
    → Memb x (take n ss) ⊎ ((s : ExecutionSelection) → Memb s (take n ss) → is_before s x ≡ true)
taken_or_behind zero ss x o m = inr (λ s k. elim k [ ])
taken_or_behind (suc n) [] x o m = elim m [ ]
taken_or_behind (suc n) (s ∷ ss) x o (here e) = inl (here e)
taken_or_behind (suc n) (s ∷ ss) x (in_front first rest) (there m) =
    elim (taken_or_behind n ss x rest m) [
      | inl k ↦ inl (there k)
      | inr behind ↦ inr (λ y k. elim k [ here e ↦ rw e (first x m) | there q ↦ behind y q ])
    ]
