-- ===== src/Regex.antt =====
-- The part of Python's `re` that the package's patterns use, as a backtracking matcher. `run` lists
-- the places where a match may end, the greedy choice first, as `re` tries them.
-- `\w`, `\b` and IGNORECASE are those of the ASCII characters.
pub mod Language
pub mod Complete
mod Samples
use durable_threads.Prelude.{
  ℕ, zero, suc, Text, codes, String, Bool, true, false, not, ◌&&◌, ◌||◌, Option, none, some, List,
  [], ◌∷◌, ◌++◌, ◌+◌, leb, ltb, nat_eq, if◌then◌else◌, length,
}

pub data Regex : Type 0 where
  eps : Regex
  char : (ℕ → Bool) → Regex
  boundary : Regex
  seq alt : Regex → Regex → Regex
  star : Regex → Regex

-- The character before a position, and the text from there on.
abbrev pub Cursor : Type 0
Cursor = Option ℕ × Text

unfoldable pub is_word : ℕ → Bool
is_word c =
    (leb b'0' c && leb c b'9')
    || (leb b'A' c && leb c b'Z')
    || (leb b'a' c && leb c b'z')
    || nat_eq c b'_'

abbrev word_before : Option ℕ → Bool
unfolding is_word
word_before none = false
word_before (some c) = is_word c

abbrev word_after : Text → Bool
unfolding is_word
word_after [] = false
word_after (c ∷ s) = is_word c

abbrev xor : Bool → Bool → Bool
xor true b = not b
xor false b = b

-- `\b`: a word character on one side only.
unfoldable pub at_boundary : Cursor → Bool
unfolding is_word
at_boundary (before, rest) = xor (word_before before) (word_after rest)

abbrev pub step_char : (ℕ → Bool) → Cursor → List Cursor
step_char p (before, []) = []
step_char p (before, c ∷ rest) = if p c then (some c, rest) ∷ [] else []

unfoldable pub bind_all : (Cursor → List Cursor) → List Cursor → List Cursor
bind_all f [] = []
bind_all f (c ∷ cs) = f c ++ bind_all f cs

-- One more round of a loop goes on only where it has consumed something.
unfoldable pub advanced : ℕ → List Cursor → List Cursor
advanced n [] = []
advanced n ((b, s) ∷ cs) =
    let rest = advanced n cs in if ltb (length s) n then (b, s) ∷ rest else rest

unfoldable pub loop : (Cursor → List Cursor) → ℕ → Cursor → List Cursor
unfolding bind_all advanced
loop f zero c = c ∷ []
loop f (suc n) (b, s) = bind_all (loop f n) (advanced (length s) (f (b, s))) ++ ((b, s) ∷ [])

-- The rounds of a loop are at most the characters that are left.
unfoldable pub run : Regex → Cursor → List Cursor
unfolding at_boundary bind_all loop
run eps c = c ∷ []
run (char p) c = step_char p c
run boundary c = if at_boundary c then c ∷ [] else []
run (seq r t) c = bind_all (run t) (run r c)
run (alt r t) c = run r c ++ run t c
run (star r) (b, s) = loop (run r) (length s) (b, s)

abbrev non_empty : List Cursor → Bool
non_empty [] = false
non_empty (c ∷ cs) = true

search_from : Regex → Option ℕ → Text → Bool
search_from r before [] = non_empty (run r (before, []))
search_from r before (c ∷ s) = non_empty (run r (before, c ∷ s)) || search_from r (some c) s

-- The truth of `pattern.search(text)`.
unfoldable pub search_in : Regex → Text → Bool
unfolding search_from run
search_in r s = search_from r none s

reaches_end : List Cursor → Bool
reaches_end [] = false
reaches_end ((b, []) ∷ cs) = true
reaches_end ((b, c ∷ s) ∷ cs) = reaches_end cs

-- The truth of `pattern.fullmatch(text)`.
unfoldable pub fullmatch : Regex → Text → Bool
unfolding reaches_end run
fullmatch r s = reaches_end (run r (none, s))

-- `pattern.sub(new, text)`, with a round for each character; no pattern of the package matches the
-- empty text.
sub_from : ℕ → Regex → Text → Option ℕ → Text → Text
sub_from zero r new before s = s
sub_from (suc n) r new before [] = []
sub_from (suc n) r new before (c ∷ s) = elim (run r (before, c ∷ s)) [
  | [] ↦ c ∷ sub_from n r new (some c) s
  | (b, t) ∷ _ ↦ new ++ sub_from n r new b t
]

unfoldable pub sub : Regex → Text → Text → Text
unfolding sub_from run
sub r new s = sub_from (length s) r new none s

-- Notation for the patterns: literals, classes, repetition.
abbrev pub chars : (ℕ → ℕ) → Text → Regex
chars fold [] = eps
chars fold (c ∷ []) = char (λ d. nat_eq (fold d) (fold c))
chars fold (c ∷ (d ∷ s)) = seq (char (λ d. nat_eq (fold d) (fold c))) (chars fold (d ∷ s))

abbrev pub fold_case : ℕ → ℕ
fold_case c = if leb b'A' c && leb c b'Z' then c + 32 else c

-- A literal under IGNORECASE.
abbrev pub word : String → Regex
word s = chars fold_case (codes s)

-- A literal read as it stands.
abbrev pub exact : String → Regex
exact s = chars (λ c. c) (codes s)

abbrev pub one_of : List Regex → Regex
one_of [] = char (λ c. false)
one_of (r ∷ []) = r
one_of (r ∷ (t ∷ rs)) = alt r (one_of (t ∷ rs))

abbrev pub optional : Regex → Regex
optional r = alt r eps

abbrev pub up_to : ℕ → Regex → Regex
up_to zero r = eps
up_to (suc n) r = optional (seq r (up_to n r))

abbrev pub at_least : ℕ → Regex → Regex
at_least zero r = star r
at_least (suc n) r = seq r (at_least n r)

abbrev pub is_digit : ℕ → Bool
is_digit c = leb b'0' c && leb c b'9'

abbrev pub is_lower : ℕ → Bool
is_lower c = leb b'a' c && leb c b'z'

abbrev pub is_upper : ℕ → Bool
is_upper c = leb b'A' c && leb c b'Z'

abbrev pub is_alnum : ℕ → Bool
is_alnum c = is_digit c || is_lower c || is_upper c

-- `[...]` over single characters.
abbrev pub in_set : Text → ℕ → Bool
in_set [] c = false
in_set (d ∷ s) c = nat_eq c d || in_set s c
