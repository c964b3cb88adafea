-- ===== src/Providers/Bounds.antt =====
-- The bounded outputs of the two runners in src/durable_threads/providers.py and
-- src/durable_threads/execution.py.
use durable_threads.Prelude.{
  ◌/◌, ℕ, Text, lit, ◌++◌, ◌+◌, ◌-◌, ◌≤◌, ◌≡◌, refl, arith, length, take, length-append,
  length-take, length-drop,
}
use durable_threads.Providers.Output.{bounded, execution_bounded, marker, last_of}

length-last_of : (n : ℕ) (value : Text) → length (last_of n value) ≤ n
length-last_of n value = omega (arith, length-drop (length value - n) value)

length-marker : length marker ≡ 20
unfolding lit
length-marker = refl

length-take_bound : (n : ℕ) (value : Text) → length (take n value) ≤ n
length-take_bound n value = omega (arith, length-take n value)

length-both :
    (n k m : ℕ) (value : Text)
    → n + m + 20 ≤ k
    → length (take n value ++ (marker ++ last_of m value)) ≤ k
length-both n k m value h = omega (
  arith,
  h,
  length-append (take n value) (marker ++ last_of m value),
  length-append marker (last_of m value),
  length-marker,
  length-last_of m value,
  length-take_bound n value,
)

pub length-bounded : (value : Text) (limit : ℕ) → length (bounded value limit) ≤ limit
unfolding bounded
length-bounded value limit = ground (
  arith,
  length-marker,
  length-take_bound limit value,
  length-both ((limit - 20) / 2) limit ((limit - 20) - (limit - 20) / 2) value,
)

-- A limit of 23 or more leaves a code point for each end.
pub execution_bounded-bounded :
    (value : Text) (limit : ℕ) → 23 ≤ limit → execution_bounded value limit ≡ bounded value limit
unfolding bounded execution_bounded
execution_bounded-bounded value limit h = grind (arith, length-marker)

pub bounded-short : (value : Text) (limit : ℕ) → length value ≤ limit → bounded value limit ≡ value
unfolding bounded
bounded-short value limit h = ground arith
