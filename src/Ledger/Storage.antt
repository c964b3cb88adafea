-- ===== src/Ledger/Storage.antt =====
-- What the ledger reads back from a file that it wrote.
use durable_threads.Prelude.{
  Text, lit, ◌==◌, ==_iff, ==_refl, Bool, true, false, Option, none, some, pos, ◌≡◌, refl, arith,
  ok, if◌then◌else◌, ◌∙◌,
}
use durable_threads.Json.{Json, Fields, int, str, obj, end, field, get_field, put_field}
use durable_threads.Ledger.{read, save, redact, redact_fields}

-- Reading after writing, in an object.
pub get_field-put_field :
    (k j : Text) (v : Json) (fs : Fields)
    → get_field j (put_field k v fs) ≡ (if k == j then some v else get_field j fs)
unfolding get_field put_field
get_field-put_field k j v end = refl
get_field-put_field k j v (field i w fs) =
    ground (arith, ==_iff k j, ==_iff i k, ==_iff i j, get_field-put_field k j v fs)

pub get_field-put_same :
    (k : Text) (v : Json) (fs : Fields) → get_field k (put_field k v fs) ≡ some v
get_field-put_same k v fs = rw (get_field-put_field k k v fs) (rw (==_refl k))

pub get_field-put_other :
    (k j : Text) (v : Json) (fs : Fields)
    → (k == j) ≡ false
    → get_field j (put_field k v fs) ≡ get_field j fs
get_field-put_other k j v fs h = rw (get_field-put_field k j v fs) (rw h)

abbrev pub redacted : Option Json → Option Json
redacted none = none
redacted (some v) = some (redact v)

redacted-if :
    (b : Bool) (v : Json) (rest rest' : Option Json)
    → rest' ≡ redacted rest
    → (if b then some (redact v) else rest') ≡ redacted (if b then some v else rest)
redacted-if true v rest rest' h = refl
redacted-if false v rest rest' h = h

-- Redaction keeps the keys of an object.
pub get_field-redact_fields :
    (k : Text) (fs : Fields) → get_field k (redact_fields fs) ≡ redacted (get_field k fs)
unfolding get_field redact_fields
get_field-redact_fields k end = refl
get_field-redact_fields k (field j v fs) =
    redacted-if _ v (get_field k fs) (get_field k (redact_fields fs)) (get_field-redact_fields k fs)

-- The object of a file that `save` wrote.
abbrev pub saved : Text → Fields → Fields
saved now fs =
    put_field (lit "updatedAt") (str now)
      (put_field (lit "schemaVersion") (int (pos 1)) (redact_fields fs))

saved-version :
    (now : Text) (fs : Fields) → get_field (lit "schemaVersion") (saved now fs) ≡ some (int (pos 1))
saved-version now fs =
    get_field-put_other (lit "updatedAt") (lit "schemaVersion") (str now) _
      (unfold lit ◌==◌ in refl)
    ∙ get_field-put_same (lit "schemaVersion") (int (pos 1)) (redact_fields fs)

saved-tasks :
    (now : Text) (fs : Fields)
    → get_field (lit "tasks") (saved now fs) ≡ redacted (get_field (lit "tasks") fs)
saved-tasks now fs =
    get_field-put_other (lit "updatedAt") (lit "tasks") (str now) _ (unfold lit ◌==◌ in refl)
    ∙ get_field-put_other (lit "schemaVersion") (lit "tasks") (int (pos 1)) (redact_fields fs)
        (unfold lit ◌==◌ in refl)
    ∙ get_field-redact_fields (lit "tasks") fs

pub read-save :
    (now now' : Text) (fs tasks : Fields)
    → get_field (lit "tasks") fs ≡ some (obj tasks)
    → read now' (some (save now fs)) ≡ ok (saved now fs, redact_fields tasks)
unfolding read save redact
read-save now now' fs tasks h = rw (saved-version now fs) (rw (saved-tasks now fs) (rw h))
