-- ===== src/Pro5.antt =====
-- plugins/durable-threads/skills/durable-threads/scripts/pro5.py: the audit of a Codex configuration, the
-- summary of a quota, and the probe that reads metadata from a Codex process. This file has
-- `safe_identifier` and what the parts read JSON with; a table of TOML is a JSON object.
pub mod Windows
pub mod Limited
pub mod Known
pub mod Moves
pub mod Rpc
pub mod Audit
pub mod Quota
pub mod Probe
pub mod Layers
pub mod Reserve
pub mod Private
pub mod Commands
mod Samples
pub mod Asked
use durable_threads.Prelude.{
  thousand, ℕ, Text, lit, ◌==◌, Bool, true, false, ◌&&◌, ◌||◌, Option, none, some, ℤ, pos, negsuc,
  ◌+◌, ◌*◌, leb, nat_eq, all, length, if◌then◌else◌,
}
use durable_threads.Json.{Json, Fields, null, bool, int, float, str, obj, get_field, truthy}

-- `[A-Za-z0-9._-]`.
unfoldable pub is_plain_char : ℕ → Bool
is_plain_char c =
    (leb b'A' c && leb c b'Z')
    || (leb b'a' c && leb c b'z')
    || (leb b'0' c && leb c b'9')
    || nat_eq c b'.'
    || nat_eq c b'_'
    || nat_eq c b'-'

-- The full match of the pattern.
unfoldable pub is_identifier : Text → Bool
unfolding is_plain_char all
is_identifier t = all is_plain_char t && (leb 1 (length t) && leb (length t) 96)

unfoldable pub safe_identifier : Option Json → Option Text
unfolding is_identifier
safe_identifier (some (str t)) = if is_identifier t then some t else none
safe_identifier _ = none

-- `d.get(key)`, with None for a missing key.
unfoldable pub value_at : Text → Fields → Json
unfolding get_field
value_at key fs = elim (get_field key fs) [ none ↦ null | some v ↦ v ]

-- `a or b`.
unfoldable pub or_value : Json → Json → Json
unfolding truthy
or_value a b = if truthy (some a) then a else b

abbrev pub fields_of : Json → Option Fields
fields_of (obj fs) = some fs
fields_of _ = none

-- An `int` or a `float` that is no `bool`, in thousandths.
unfoldable pub number_of : Json → Option ℤ
number_of (int z) = some (thousand z)
number_of (float z) = some z
number_of _ = none
