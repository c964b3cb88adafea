-- ===== src/Ledger.antt =====
-- src/durable_threads/ledger.py: the local record of tasks. The disk holds the ledger's JSON (none
-- where there is no file) and whether the lock file is there; the order of an object's keys on disk
-- is left out. `now` is the text of the clock, which a call reads. The directory that `_locked` makes
-- first is no part of the disk; a file that is no JSON, and the errors of the operating system in
-- reading, writing, closing and unlinking, are left out.
pub mod Begin
pub mod Storage
pub mod Claims
pub mod Exclusion
pub mod Numbering
pub mod Retries
pub mod Refinement
pub mod Samples
use durable_threads.Prelude.{
  ℕ, Text, String, lit, codes, ◌==◌, Bool, true, false, not, ◌&&◌, ◌||◌, Option, none, some, List,
  [], ◌∷◌, ◌++◌, ℤ, pos, negsuc, ltb_ℤ, eq_ℤ, ◌+ℤ◌, if◌then◌else◌, ok, err, ◌>>=◌, ◌>>◌, raise_if,
  take, contains, is_space,
}
use durable_threads.Errors.{
  Error, Res, value_error, ledger_busy_error, ledger_state_error, type_error,
}
use durable_threads.Json.{
  Json, Items, Fields, null, bool, int, float, str, arr, obj, nil, cons, end, field, get_field,
  put_field,
}
use durable_threads.Regex.{
  Regex, char, seq, star, alt, word, one_of, optional, at_least, is_alnum, in_set, sub, is_upper,
  is_digit,
}

-- `[A-Za-z0-9_\-]`.
abbrev token_char : ℕ → Bool
token_char c = is_alnum c || in_set (codes "_-") c

-- `_SECRET`.
unfoldable pub secret : Regex
secret = one_of (
    seq (word "sk-") (at_least 12 (char is_alnum))
    ∷ seq (word "xai-") (at_least 12 (char token_char))
    ∷ seq (word "gh")
        (seq (char (in_set (codes "pousrPOUSR"))) (seq (word "_") (at_least 12 (char token_char))))
    ∷ seq (word "github_pat_") (at_least 12 (char token_char))
    ∷ seq
        (one_of (word "OPENAI" ∷ word "ANTHROPIC" ∷ word "XAI" ∷ word "CURSOR" ∷ word "GROK" ∷ []))
        (seq (word "_") (
          seq (star (char (λ c. is_alnum c || in_set (codes "_") c))) (
            seq
              (one_of (
                seq (word "API") (seq (optional (word "_")) (word "KEY"))
                ∷ word "TOKEN"
                ∷ word "SECRET"
                ∷ []))
              (seq (star (char is_space)) (
                seq (char (in_set (codes "=:"))) (
                  seq (star (char is_space))
                    (at_least 1 (char (λ c. not (is_space c || in_set (codes ",;") c))))))))))
    ∷ [])

-- `_redact` of a string.
unfoldable pub redact_text : Text → Text
redact_text value = take 2000 (sub secret (lit "[REDACTED]") value)

unfoldable mutual
  pub redact : Json → Json
  redact null = null
  redact (bool b) = bool b
  redact (int z) = int z
  redact (float z) = float z
  redact (str t) = str (redact_text t)
  redact (arr vs) = arr (redact_items vs)
  redact (obj fs) = obj (redact_fields fs)

  pub redact_items : Items → Items
  redact_items nil = nil
  redact_items (cons v vs) = cons (redact v) (redact_items vs)

  pub redact_fields : Fields → Fields
  redact_fields end = end
  redact_fields (field k v fs) = field k (redact v) (redact_fields fs)

pub record Disk : Type 0 where
  pub file : Option Json
  pub lock : Bool

-- `== 1` of a JSON value.
abbrev pub is_one : Option Json → Bool
is_one (some (int z)) = eq_ℤ z (pos 1)
is_one (some (float z)) = eq_ℤ z (pos 1000)
is_one (some (bool b)) = b
is_one _ = false

-- The object and its "tasks", checked; `record_task` and `begin_task` go on from both.
abbrev tasks_of : Fields → Option Json → Res (Fields × Fields)
tasks_of data_fields (some (obj tasks)) = ok (data_fields, tasks)
tasks_of data_fields _ = err (value_error "ledger tasks must be an object")

abbrev loaded : Json → Res (Fields × Fields)
loaded (obj fs) =
    if is_one (get_field (lit "schemaVersion") fs)
    then tasks_of fs (get_field (lit "tasks") fs)
    else err (value_error "ledger must use schemaVersion 1")
loaded _ = err (value_error "ledger must use schemaVersion 1")

-- Ledger.read.
unfoldable pub read : Text → Option Json → Res (Fields × Fields)
read now none = ok (
  field (lit "schemaVersion") (int (pos 1))
      (field (lit "updatedAt") (str now) (field (lit "tasks") (obj end) end)),
  end,
)
read now (some data_json) = loaded data_json

-- Ledger.save: the text that replaces the file in one step.
unfoldable pub save : Text → Fields → Json
save now fs = obj (
    put_field (lit "updatedAt") (str now)
      (put_field (lit "schemaVersion") (int (pos 1)) (redact_fields fs)))

-- `_locked`: a call that finds the lock file changes nothing; any other removes its own.
abbrev pub release {ℓ} : {A : Type ℓ} → Disk → Res (A × Json) → Res A × Disk
release disk (ok (a, json)) = (ok a, record { file = some json; lock = false })
release disk (err e) = (err e, record { file = disk.file; lock = false })

unfoldable pub locked {ℓ} : {A : Type ℓ} → (Option Json → Res (A × Json)) → Disk → Res A × Disk
locked method disk =
    if disk.lock
    then (err (ledger_busy_error "ledger is locked; inspect the writer before recovery"), disk)
    else release disk (method disk.file)

abbrev pub is_obj : Option Json → Fields
is_obj (some (obj fs)) = fs
is_obj _ = end

abbrev pub put_nonempty : Text → Option Text → Fields → Fields
put_nonempty k none fs = fs
put_nonempty k (some []) fs = fs
put_nonempty k (some (c ∷ t)) fs = put_field k (str (c ∷ t)) fs

abbrev pub put_given : Text → Option Json → Fields → Fields
put_given k none fs = fs
put_given k (some v) fs = put_field k v fs

-- The task that `record_task` writes.
unfoldable pub recorded_task :
    Text
    → (task_id role status : Text) (provider thread_id : Option Text) (result usage : Option Json)
    → Fields
    → Fields
recorded_task now task_id role status provider thread_id result usage existing =
    put_given (lit "usage") usage (
      put_given (lit "result") result (
        put_nonempty (lit "threadId") thread_id (
          put_nonempty (lit "provider") provider (
            put_field (lit "updatedAt") (str now) (
              put_field (lit "status") (str status) (
                put_field (lit "role") (str role)
                  (put_field (lit "taskId") (str task_id) existing)))))))

unfoldable pub record_task :
    Text
    → (task_id role status : Text) (provider thread_id : Option Text) (result usage : Option Json)
    → Disk
    → Res Json × Disk
record_task now task_id role status provider thread_id result usage = locked (λ file. do
  found ← read now file
  let task =
      recorded_task now task_id role status provider thread_id result usage
        (is_obj (get_field task_id found.1))
  ok (
    obj (redact_fields task),
    save now (put_field (lit "tasks") (obj (put_field task_id (obj task) found.1)) found.0),
  ))
