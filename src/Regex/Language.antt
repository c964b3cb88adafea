-- ===== src/Regex/Language.antt =====
-- The matcher against the language of a pattern.
use durable_threads.Prelude.{
  ℕ, zero, suc, ◌<◌, Text, Bool, true, false, Option, some, List, [], ◌∷◌, ◌≡◌, refl, subst, inl,
  inr, arith, length, ltb, if◌then◌else◌, Memb, here, there, Memb-append, Memb-append_left,
  Memb-append_right,
}
use durable_threads.Regex.{
  Regex, eps, char, boundary, seq, alt, star, Cursor, at_boundary, bind_all, advanced, loop, run,
}

-- `Derives r c d`: from the place `c` the pattern may match up to the place `d`.
pub data Derives : Regex → Cursor → Cursor → Type 0 where
  nothing : {c : Cursor} → Derives eps c c
  one :
      {p : ℕ → Bool} {b : Option ℕ} {x : ℕ} {s : Text}
      → p x ≡ true
      → Derives (char p) (b, x ∷ s) (some x, s)
  edge : {c : Cursor} → at_boundary c ≡ true → Derives boundary c c
  both : {r t : Regex} {c d e : Cursor} → Derives r c d → Derives t d e → Derives (seq r t) c e
  left : {r t : Regex} {c d : Cursor} → Derives r c d → Derives (alt r t) c d
  right : {r t : Regex} {c d : Cursor} → Derives t c d → Derives (alt r t) c d
  done : {r : Regex} {c : Cursor} → Derives (star r) c c
  more : {r : Regex} {c d e : Cursor} → Derives r c d → Derives (star r) d e → Derives (star r) c e

pub Memb-bind_all :
    (f : Cursor → List Cursor) (cs : List Cursor) {d : Cursor}
    → Memb d (bind_all f cs)
    → (e : Cursor) × Memb e cs × Memb d (f e)
unfolding bind_all
Memb-bind_all f [] m = elim m [ ]
Memb-bind_all f (c ∷ cs) m = elim (Memb-append (f c) (bind_all f cs) m) [
  | inl now ↦ (c, here refl, now)
  | inr later ↦ let (e, me, md) = Memb-bind_all f cs later in (e, there me, md)
]

pub bind_all-Memb :
    (f : Cursor → List Cursor) (cs : List Cursor) {d e : Cursor}
    → Memb e cs
    → Memb d (f e)
    → Memb d (bind_all f cs)
unfolding bind_all
bind_all-Memb f [] m n = elim m [ ]
bind_all-Memb f (c ∷ cs) {d} (here q) n =
    Memb-append_left (f c) (bind_all f cs) (subst (λ x. Memb d (f x)) q n)
bind_all-Memb f (c ∷ cs) (there m) n =
    Memb-append_right (f c) (bind_all f cs) (bind_all-Memb f cs m n)

Memb-advanced : (n : ℕ) (cs : List Cursor) {d : Cursor} → Memb d (advanced n cs) → Memb d cs
unfolding advanced
Memb-advanced n [] m = elim m [ ]
Memb-advanced n ((b, s) ∷ cs) m = go (ltb (length s) n) (Memb-advanced n cs) m
  where
    go :
        {d : Cursor} (t : Bool)
        → (Memb d (advanced n cs) → Memb d cs)
        → Memb d (if t then (b, s) ∷ advanced n cs else advanced n cs)
        → Memb d ((b, s) ∷ cs)
    go true ih (here q) = here q
    go true ih (there k) = there (ih k)
    go false ih k = there (ih k)

pub advanced-Memb :
    (n : ℕ) (cs : List Cursor) {d : Cursor} → Memb d cs → length d.1 < n → Memb d (advanced n cs)
unfolding advanced
advanced-Memb n [] m h = elim m [ ]
advanced-Memb n ((b, s) ∷ cs) {d} (here q) h = go (ltb (length s) n) refl
  where
    near : ltb (length s) n ≡ true
    near = subst (λ (x : Cursor). ltb (length x.1) n ≡ true) q (ground arith)

    go :
        (t : Bool)
        → ltb (length s) n ≡ t
        → Memb d (if t then (b, s) ∷ advanced n cs else advanced n cs)
    go true e = here q
    go false e = absurd (ground (arith, near))
advanced-Memb n ((b, s) ∷ cs) {d} (there m) h = go (ltb (length s) n) (advanced-Memb n cs m h)
  where
    go :
        (t : Bool)
        → Memb d (advanced n cs)
        → Memb d (if t then (b, s) ∷ advanced n cs else advanced n cs)
    go true k = there k
    go false k = k

loop_sound :
    (r : Regex) (f : Cursor → List Cursor)
    → ((c d : Cursor) → Memb d (f c) → Derives r c d)
    → (n : ℕ) (c d : Cursor) → Memb d (loop f n c)
    → Derives (star r) c d
unfolding loop
loop_sound r f fits zero c d (here q) = rw q done
loop_sound r f fits zero c d (there m) = elim m [ ]
loop_sound r f fits (suc n) (b, s) d m =
    elim (Memb-append (bind_all (loop f n) (advanced (length s) (f (b, s)))) _ m) [
      | inl on ↦
          let (e, me, md) = Memb-bind_all (loop f n) _ on in
          more (fits (b, s) e (Memb-advanced _ _ me)) (loop_sound r f fits n e d md)
      | inr (here q) ↦ rw q done
      | inr (there k) ↦ elim k [ ]
    ]

-- Where the matcher stops, the pattern may stop.
pub run_sound : (r : Regex) (c d : Cursor) → Memb d (run r c) → Derives r c d
unfolding run
run_sound eps c d (here q) = rw q nothing
run_sound eps c d (there m) = elim m [ ]
run_sound (char p) (b, []) d m = elim m [ ]
run_sound (char p) (b, x ∷ s) d m = go (p x) refl m
  where
    go :
        (t : Bool)
        → p x ≡ t
        → Memb d (if t then (some x, s) ∷ [] else [])
        → Derives (char p) (b, x ∷ s) d
    go true e (here q) = rw q (one e)
    go true e (there k) = elim k [ ]
    go false e k = elim k [ ]
run_sound boundary c d m = go (at_boundary c) refl m
  where
    go : (t : Bool) → at_boundary c ≡ t → Memb d (if t then c ∷ [] else []) → Derives boundary c d
    go true e (here q) = rw q (edge e)
    go true e (there k) = elim k [ ]
    go false e k = elim k [ ]
run_sound (seq r t) c d m =
    let (e, me, md) = Memb-bind_all (run t) (run r c) m in
    both (run_sound r c e me) (run_sound t e d md)
run_sound (alt r t) c d m = elim (Memb-append (run r c) (run t c) m) [
  | inl l ↦ left (run_sound r c d l)
  | inr k ↦ right (run_sound t c d k)
]
run_sound (star r) (b, s) d m = loop_sound r (run r) (run_sound r) (length s) (b, s) d m
