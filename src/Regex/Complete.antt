-- ===== src/Regex/Complete.antt =====
-- The matcher finds every place where a pattern may stop: the rounds of its loops are enough.
use durable_threads.Prelude.{
  Memb-append, ◌∙◌, ℕ, zero, suc, ◌≤◌, ◌<◌, Text, true, Option, none, List, [], ◌∷◌, ◌≡◌, refl, sym,
  subst, ◌⊎◌, inl, inr, arith, length, Memb, here, there, Memb-append_left, Memb-append_right, ◌↔◌,
  ◌∷◌,
}
use durable_threads.Regex.{Regex, Cursor, bind_all, advanced, loop, run, fullmatch, reaches_end}
use durable_threads.Regex.Language.{
  Derives, nothing, one, edge, both, left, right, done, more, Memb-bind_all, bind_all-Memb,
  advanced-Memb, run_sound,
}

-- A match goes on through the text, or stays where it is.
Moves : Cursor → Cursor → Type 0
Moves c d = (length d.1 < length c.1) ⊎ (d ≡ c)

Moves-trans : (c d e : Cursor) → Moves c d → Moves d e → Moves c e
unfolding Moves
Moves-trans c d e (inl h) (inl k) = inl (omega arith)
Moves-trans c d e (inl h) (inr q) = inl (rw q h)
Moves-trans c d e (inr p) (inl k) = inl (subst (λ (x : Cursor). length e.1 < length x.1) p k)
Moves-trans c d e (inr p) (inr q) = inr (q ∙ p)

Derives-Moves : {r : Regex} {c d : Cursor} → Derives r c d → Moves c d
unfolding Moves
Derives-Moves nothing = inr refl
Derives-Moves (one h) = inl (omega arith)
Derives-Moves (edge h) = inr refl
Derives-Moves (both x y) = Moves-trans _ _ _ (Derives-Moves x) (Derives-Moves y)
Derives-Moves (left x) = Derives-Moves x
Derives-Moves (right x) = Derives-Moves x
Derives-Moves done = inr refl
Derives-Moves (more x y) = Moves-trans _ _ _ (Derives-Moves x) (Derives-Moves y)

start-loop : (f : Cursor → List Cursor) (n : ℕ) (c : Cursor) → Memb c (loop f n c)
unfolding loop
start-loop f zero c = here refl
start-loop f (suc n) (b, s) = Memb-append_right _ _ (here refl)

-- More rounds find no less.
loop_mono :
    (f : Cursor → List Cursor) (n m : ℕ) (c d : Cursor)
    → n ≤ m
    → Memb d (loop f n c)
    → Memb d (loop f m c)
unfolding loop
loop_mono f zero m c d h (here q) = subst (λ x. Memb x (loop f m c)) (sym q) (start-loop f m c)
loop_mono f zero m c d h (there k) = elim k [ ]
loop_mono f (suc n) zero c d h k = absurd (omega arith)
loop_mono f (suc n) (suc m) (b, s) d h k =
    elim (Memb-append (bind_all (loop f n) (advanced (length s) (f (b, s)))) _ k) [
      | inl on ↦
          let (e, me, md) = Memb-bind_all (loop f n) _ on in
          Memb-append_left _ _
            (bind_all-Memb (loop f m) _ me (loop_mono f n m e d (omega arith) md))
      | inr last ↦ Memb-append_right _ _ last
    ]

-- One round and then the loop from where it stopped.
loop-step :
    (f : Cursor → List Cursor) (n : ℕ) (c e d : Cursor)
    → length c.1 ≤ n
    → Memb e (f c)
    → Moves c e
    → Memb d (loop f (length e.1) e)
    → Memb d (loop f n c)
unfolding loop Moves
loop-step f n c e d h me (inr q) md =
    loop_mono f (length c.1) n c d h (subst (λ (x : Cursor). Memb d (loop f (length x.1) x)) q md)
loop-step f zero (b, s) e d h me (inl k) md = absurd (omega arith)
loop-step f (suc n) (b, s) e d h me (inl k) md = Memb-append_left _ _ (
    bind_all-Memb (loop f n) _ (advanced-Memb _ _ me k)
      (loop_mono f (length e.1) n e d (omega arith) md))

pub run_complete : {r : Regex} {c d : Cursor} → Derives r c d → Memb d (run r c)
unfolding run
run_complete nothing = here refl
run_complete (one h) = rw h (here refl)
run_complete (edge h) = rw h (here refl)
run_complete (both x y) = bind_all-Memb _ _ (run_complete x) (run_complete y)
run_complete (left x) = Memb-append_left _ _ (run_complete x)
run_complete (right x) = Memb-append_right _ _ (run_complete x)
run_complete (done {r = r} {c = c}) = start-loop (run r) (length c.1) c
run_complete (more {r = r} {c = c} {d = e} {e = d} x y) =
    loop-step (run r) (length c.1) c e d (omega arith) (run_complete x) (Derives-Moves x)
      (run_complete y)

-- The matcher stops at a place exactly if the pattern may: backtracking loses no match.
pub run_iff : (r : Regex) (c d : Cursor) → Memb d (run r c) ↔ Derives r c d
run_iff r c d = (run_sound r c d, λ x. run_complete x)

reaches_end-Memb : (cs : List Cursor) → reaches_end cs ≡ true → (b : Option ℕ) × Memb (b, []) cs
unfolding reaches_end
reaches_end-Memb [] h = cc
reaches_end-Memb ((b, []) ∷ cs) h = (b, here refl)
reaches_end-Memb ((b, x ∷ s) ∷ cs) h = let (c, m) = reaches_end-Memb cs h in (c, there m)

Memb-reaches_end : (b : Option ℕ) (cs : List Cursor) → Memb (b, []) cs → reaches_end cs ≡ true
unfolding reaches_end
Memb-reaches_end b [] m = elim m [ ]
Memb-reaches_end b ((c, []) ∷ cs) m = refl
Memb-reaches_end b ((c, x ∷ s) ∷ cs) (here q) = cc
Memb-reaches_end b ((c, x ∷ s) ∷ cs) (there m) = Memb-reaches_end b cs m

-- `fullmatch` is true exactly for the texts of the pattern's language.
pub fullmatch_iff :
    (r : Regex) (s : Text) → (fullmatch r s ≡ true) ↔ ((b : Option ℕ) × Derives r (none, s) (b, []))
unfolding fullmatch
fullmatch_iff r s = (
  λ h. let (b, m) = reaches_end-Memb (run r (none, s)) h in (b, run_sound r _ _ m),
  λ (b, d). Memb-reaches_end b _ (run_complete d),
)
