-- ===== src/Pro5/Quota.antt =====
-- `quota_summary` of pro5.py. Quantities are thousandths; an `int` of JSON that no `float` can hold
-- makes `math.isfinite` raise.
use durable_threads.Prelude.{
  magnitude, float_limit, Text, lit, Bool, true, false, not, ◌&&◌, ◌||◌, Option, none, some, List,
  [], ◌∷◌, ok, err, ◌>>=◌, ◌>>◌, raise_if, if◌then◌else◌, ℤ, pos, ◌-ℤ◌, ltb_ℤ, leb_ℤ, leb,
}
use durable_threads.Errors.{Res, value_error, overflow_error}
use durable_threads.Json.{Json, Fields, null, int, obj, is_text}
use durable_threads.Pro5.{value_at, fields_of, number_of}

pub record Window : Type 0 where
  pub window : Text
  pub used_percent : ℤ
  pub remaining_percent : ℤ
  pub resets_at : ℤ
  pub window_duration_mins : ℤ

pub data QuotaStatus : Type 0 where
  unknown refresh_required observed pause : QuotaStatus

-- A summary without its windows says nothing else; otherwise it holds what remains and when it was
-- seen. The reserve is always 15 percent.
pub data Quota : Type 0 where
  brief : QuotaStatus → Quota
  full : QuotaStatus → List Window → Option ℤ → ℤ → Quota

pub data Seen : Type 0 where
  absent : Seen
  bad : QuotaStatus → Seen
  usable : Window → Seen

-- A value that is an `int` or a `float` and finite, or none.
unfoldable pub finite_number : Json → Res (Option ℤ)
unfolding float_limit number_of
finite_number (int z) =
    if leb float_limit (magnitude z)
    then err (overflow_error "int too large to convert to float")
    else ok (number_of (int z))
finite_number v = ok (number_of v)

-- `any(...)` stops at the first value that is no finite number.
unfoldable pub finite_numbers : List Json → Res (Option (List ℤ))
unfolding finite_number
finite_numbers [] = ok (some [])
finite_numbers (v ∷ vs) = do
  found ← finite_number v
  elim found [
    | none ↦ ok none
    | some n ↦ do rest ← finite_numbers vs; ok (elim rest [ none ↦ none | some ns ↦ some (n ∷ ns) ])
  ]

unfoldable pub window_from : Text → ℤ → List ℤ → Seen
window_from key now (used ∷ reset ∷ duration ∷ []) =
    if not (leb_ℤ (pos 0) used && leb_ℤ used (pos 100000))
      || (leb_ℤ reset now || leb_ℤ duration (pos 0))
    then bad refresh_required
    else usable (record {
      window = key;
      used_percent = used;
      remaining_percent = pos 100000 -ℤ used;
      resets_at = reset;
      window_duration_mins = duration;
    })
window_from key now ns = bad unknown

-- The window of the three numbers, if all are finite.
unfoldable pub seen_in : Text → ℤ → Option (List ℤ) → Seen
unfolding window_from
seen_in key now none = bad unknown
seen_in key now (some ns) = window_from key now ns

-- One round of the loop over the two windows.
unfoldable pub read_window : Text → Json → ℤ → Res Seen
unfolding finite_numbers seen_in value_at lit
read_window key null now = ok absent
read_window key (obj fs) now = do
  found ← finite_numbers (
      value_at (lit "usedPercent") fs
      ∷ value_at (lit "resetsAt") fs
      ∷ value_at (lit "windowDurationMins") fs
      ∷ [])
  ok (seen_in key now found)
read_window key v now = ok (bad unknown)

-- The windows, or the status that an early return has.
pub data Windows : Type 0 where
  stop : QuotaStatus → Windows
  all_of : List Window → Windows

unfoldable pub add_window : Window → Windows → Windows
add_window w (stop status) = stop status
add_window w (all_of ws) = all_of (w ∷ ws)

-- What a window that was read does with the rest of the loop.
unfoldable pub with_seen : Seen → Res Windows → Res Windows
unfolding add_window
with_seen absent rest = rest
with_seen (bad status) rest = ok (stop status)
with_seen (usable w) rest = do ws ← rest; ok (add_window w ws)

unfoldable pub read_windows : Fields → ℤ → List Text → Res Windows
unfolding read_window with_seen value_at
read_windows bucket now [] = ok (all_of [])
read_windows bucket now (key ∷ keys) = do
  seen ← read_window key (value_at key bucket) now
  with_seen seen (read_windows bucket now keys)

-- `min(..., default=None)`.
abbrev pub with_least : Window → Option ℤ → Option ℤ
with_least w none = some w.remaining_percent
with_least w (some r) = some (if leb_ℤ w.remaining_percent r then w.remaining_percent else r)

unfoldable pub least : List Window → Option ℤ
least [] = none
least (w ∷ ws) = with_least w (least ws)

abbrev pub at_reserve : Option ℤ → Bool
at_reserve none = false
at_reserve (some r) = leb_ℤ r (pos 15000)

abbrev pub seen_status : List Window → QuotaStatus
seen_status [] = unknown
seen_status (w ∷ ws) = observed

unfoldable pub status_from : Bool → List Window → QuotaStatus
unfolding least
status_from reached ws = if reached || at_reserve (least ws) then pause else seen_status ws

abbrev pub is_null : Json → Bool
is_null null = true
is_null v = false

-- `bucket.get("limitId") not in (None, "codex")`, negated.
abbrev pub is_codex : Json → Bool
is_codex null = true
is_codex v = is_text (some v) (lit "codex")

unfoldable pub summary_from : Fields → ℤ → Windows → Quota
unfolding status_from least value_at lit
summary_from bucket now (stop status) = brief status
summary_from bucket now (all_of ws) =
    full (status_from (not (is_null (value_at (lit "rateLimitReachedType") bucket))) ws) ws
      (least ws) now

unfoldable pub summary_of : Fields → ℤ → Res Quota
unfolding read_windows summary_from lit
summary_of bucket now = do
  windows ← read_windows bucket now (lit "primary" ∷ lit "secondary" ∷ [])
  ok (summary_from bucket now windows)

-- The bucket of Codex, of a payload with buckets by name.
unfoldable pub named_bucket : Option Fields → Json
unfolding value_at lit
named_bucket none = null
named_bucket (some buckets) = value_at (lit "codex") buckets

unfoldable pub bucket_of : Fields → Json
unfolding value_at lit named_bucket
bucket_of payload =
    let named = named_bucket (fields_of (value_at (lit "rateLimitsByLimitId") payload)) in
    if is_null named then value_at (lit "rateLimits") payload else named

unfoldable pub summary_in : Option Fields → ℤ → Res Quota
unfolding summary_of value_at is_text lit
summary_in none now = ok (brief unknown)
summary_in (some bucket) now =
    if is_codex (value_at (lit "limitId") bucket) then summary_of bucket now else ok (brief unknown)

-- `now` is finite, as every `float` of the model is.
unfoldable pub quota_summary : Json → ℤ → Res Quota
unfolding summary_in bucket_of
quota_summary (obj payload) now = do
  raise_if (ltb_ℤ now (pos 0)) (value_error "invalid quota observation")
  summary_in (fields_of (bucket_of payload)) now
quota_summary v now = err (value_error "invalid quota observation")
