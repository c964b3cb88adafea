-- ===== src/Regex/Samples.antt =====
-- The matcher on small patterns, and its theorems there.
use durable_threads.Prelude.{ℕ, codes, Option, none, some, [], ◌∷◌, ◌≡◌, refl, true, ◌↔◌, Memb}
use durable_threads.Regex.{Regex, char, seq, run, fullmatch, sub, word, is_digit, at_least}
use durable_threads.Regex.Language.{Derives}
use durable_threads.Regex.Complete.{run_iff, fullmatch_iff}

abbrev digits : Regex
digits = at_least 1 (char is_digit)

greedy : run digits (none, codes "42x") ≡ (some b'2', codes "x") ∷ (some b'4', codes "2x") ∷ []
unfolding run
greedy = refl

replaced : sub (seq (word "sk-") digits) (codes "[X]") (codes "a SK-12 b") ≡ codes "a [X] b"
unfolding sub
replaced = refl

run_iff_example :
    Memb (some b'2', codes "x") (run digits (none, codes "42x"))
    ↔ Derives digits (none, codes "42x") (some b'2', codes "x")
run_iff_example = run_iff digits (none, codes "42x") (some b'2', codes "x")

fullmatch_iff_example :
    (fullmatch digits (codes "42") ≡ true)
    ↔ ((b : Option ℕ) × Derives digits (none, codes "42") (b, []))
fullmatch_iff_example = fullmatch_iff digits (codes "42")
