-- ===== src/Prelude/Strings.antt =====
-- Python's `str` as its list of code points, with the methods that the package calls. Case
-- mapping is that of the ASCII letters; `is_space` is `str.isspace` of every code point.
use Prim.Native.Char.{code}
use Prim.Native.Nat.{ℕ, ◌+◌, ◌-◌}
use Prim.Native.String.{String}
use mathlib.Core.Path.{◌≡◌, refl}
use mathlib.Core.Logic.{◌≢◌, ◌↔◌, inl, inr}
use mathlib.Core.Bool.{Bool, true, false, not, ◌&&◌, ◌||◌}
use mathlib.Core.List.{List, [], ◌∷◌, ◌++◌, map}
use native.Mathlib.Omega.{arith}
use durable_threads.Prelude.Tests.{leb, ltb, nat_eq, if◌then◌else◌, Bool-cases}
use durable_threads.Prelude.Lists.{Memb, here, there}

abbrev pub Text : Type 0
Text = List ℕ

-- A literal. `String` has its own `[]` and `∷`.
abbrev pub codes : String → Text
codes String.[] = []
codes (String.◌∷◌ c s) = code c ∷ codes s

-- The same, shut: a proof that does not need its characters sees a name.
unfoldable pub lit : String → Text
lit = codes

infix 50 ◌==◌
unfoldable pub ◌==◌ : Text → Text → Bool
[] == [] = true
[] == (d ∷ t) = false
(c ∷ s) == [] = false
(c ∷ s) == (d ∷ t) = nat_eq c d && s == t

pub ==_iff : (s t : Text) → ((s == t) ≡ true) ↔ (s ≡ t)
unfolding ◌==◌
==_iff [] [] = ground arith
==_iff [] (d ∷ t) = ground arith
==_iff (c ∷ s) [] = ground arith
==_iff (c ∷ s) (d ∷ t) = ground (arith, ==_iff s t)

pub ==_refl : (s : Text) → (s == s) ≡ true
==_refl s = (==_iff s s).1 refl

pub ==-false : (s t : Text) → (s == t) ≡ false → s ≢ t
==-false s t h e = ground (arith, ==_iff s t)

-- `s < t`, the order by code points that `sorted` uses.
unfoldable pub text_ltb : Text → Text → Bool
text_ltb s [] = false
text_ltb [] (d ∷ t) = true
text_ltb (c ∷ s) (d ∷ t) = ltb c d || (nat_eq c d && text_ltb s t)

-- `t in items`.
unfoldable pub contains : Text → List Text → Bool
unfolding ◌==◌
contains t [] = false
contains t (s ∷ ss) = t == s || contains t ss

pub contains-Memb : (t : Text) (ss : List Text) → contains t ss ≡ true → Memb t ss
unfolding contains
contains-Memb t [] h = cc
contains-Memb t (s ∷ ss) h = elim (Bool-cases (t == s)) [
  | inl e ↦ here ((==_iff t s).0 e)
  | inr e ↦ there (contains-Memb t ss (ground arith))
]

pub Memb-contains : (t : Text) (ss : List Text) → Memb t ss → contains t ss ≡ true
unfolding contains
Memb-contains t [] m = elim m [ ]
Memb-contains t (s ∷ ss) (here e) = ground (arith, (==_iff t s).1 e)
Memb-contains t (s ∷ ss) (there m) = ground (arith, Memb-contains t ss m)

lower_code : ℕ → ℕ
lower_code c = if leb b'A' c && leb c b'Z' then c + 32 else c

upper_code : ℕ → ℕ
upper_code c = if leb b'a' c && leb c b'z' then c - 32 else c

-- `s.lower()`, and `s.casefold()`.
unfoldable pub lower : Text → Text
unfolding lower_code
lower = map lower_code

unfoldable pub upper : Text → Text
unfolding upper_code
upper = map upper_code

unfoldable pub is_space : ℕ → Bool
is_space c =
    (leb 9 c && leb c 13)
    || (leb 28 c && leb c 32)
    || nat_eq c 0x85
    || nat_eq c 0xa0
    || nat_eq c 0x1680
    || (leb 0x2000 c && leb c 0x200a)
    || nat_eq c 0x2028
    || nat_eq c 0x2029
    || nat_eq c 0x202f
    || nat_eq c 0x205f
    || nat_eq c 0x3000

-- `s.lstrip(chars)`, with the set of characters as a test.
unfoldable pub lstrip : (ℕ → Bool) → Text → Text
lstrip p [] = []
lstrip p (c ∷ s) = if p c then lstrip p s else c ∷ s

unfoldable pub rstrip : (ℕ → Bool) → Text → Text
rstrip p [] = []
rstrip p (c ∷ s) = let rest = rstrip p s in if rest == [] && p c then [] else c ∷ rest

unfoldable pub strip : Text → Text
unfolding is_space lstrip rstrip ◌==◌
strip s = rstrip is_space (lstrip is_space s)

-- The truth of `s.strip()`.
unfoldable pub nonblank : Text → Bool
unfolding strip
nonblank s = not (strip s == [])

unfoldable pub starts_with : Text → Text → Bool
starts_with s [] = true
starts_with [] (d ∷ t) = false
starts_with (c ∷ s) (d ∷ t) = nat_eq c d && starts_with s t

-- `s.replace(a, b)` for single characters.
unfoldable pub replace_char : ℕ → ℕ → Text → Text
replace_char a b = map (λ c. if nat_eq c a then b else c)

abbrev push_head : ℕ → List Text → List Text
push_head c [] = (c ∷ []) ∷ []
push_head c (w ∷ ws) = (c ∷ w) ∷ ws

-- `s.split(sep)` for a one-character separator.
unfoldable pub split_on : ℕ → Text → List Text
split_on sep [] = [] ∷ []
split_on sep (c ∷ s) =
    let rest = split_on sep s in if nat_eq c sep then [] ∷ rest else push_head c rest

abbrev drop_empty : List Text → List Text
drop_empty [] = []
drop_empty ([] ∷ ws) = drop_empty ws
drop_empty ((c ∷ w) ∷ ws) = (c ∷ w) ∷ drop_empty ws

-- `s.split()`: the runs of characters that are no space.
unfoldable pub words : Text → List Text
unfolding split_on is_space
words s = drop_empty (split_on 32 (map (λ c. if is_space c then 32 else c) s))

unfoldable pub join : Text → List Text → Text
join sep [] = []
join sep (w ∷ []) = w
join sep (w ∷ (v ∷ ws)) = w ++ (sep ++ join sep (v ∷ ws))

-- `s.partition(sep)`: the text before the first `sep`, and what follows it if there is one.
unfoldable pub span_until : ℕ → Text → Text × Text × Bool
span_until sep [] = ([], [], false)
span_until sep (c ∷ s) =
    let rest = span_until sep s in
    if nat_eq c sep then ([], s, true) else (c ∷ rest.0, rest.1, rest.2)
