-- ===== src/Intelligence/Values.antt =====
-- The value of an answer as text, and as the strings that src/durable_threads/intelligence.py
-- compares it with.
use durable_threads.Prelude.{
  ℕ, zero, suc, ◌+◌, ◌/◌, ◌%◌, Text, lit, ◌==◌, Bool, true, false, [], ◌∷◌, ◌++◌, pos, negsuc,
  nat_eq, if◌then◌else◌,
}
use durable_threads.Decisions.{Value, flag, text, number}

-- `str(value)`: that of a float has its integer part, and the thousandths without the zeros at the
-- end, of which one digit stays.
unfoldable pub digits_of : ℕ → ℕ → Text → Text
digits_of zero n out = out
digits_of (suc fuel) n out =
    let digit = (b'0' + n % 10) ∷ out in
    let more = digits_of fuel (n / 10) digit in if nat_eq (n / 10) 0 then digit else more

unfoldable pub fraction : ℕ → Text
fraction n =
    let a = b'0' + n / 100 in
    let b = b'0' + n / 10 % 10 in
    let c = b'0' + n % 10 in
    if nat_eq (n % 100) 0 then a ∷ [] else if nat_eq (n % 10) 0 then a ∷ b ∷ [] else a ∷ b ∷ c ∷ []

unfoldable pub show_thousandths : ℕ → Text
show_thousandths n = digits_of (suc n) (n / 1000) [] ++ (lit "." ++ fraction (n % 1000))

unfoldable pub show_value : Value → Text
show_value (flag true) = lit "True"
show_value (flag false) = lit "False"
show_value (text t) = t
show_value (number (pos n)) = show_thousandths n
show_value (number (negsuc n)) = lit "-" ++ show_thousandths (suc n)

abbrev pub is_true : Value → Bool
is_true (flag b) = b
is_true _ = false

-- `answer.value == "..."`.
unfoldable pub value_is : Value → Text → Bool
value_is (text t) s = t == s
value_is _ s = false
