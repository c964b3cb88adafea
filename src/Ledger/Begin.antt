-- ===== src/Ledger/Begin.antt =====
-- `begin_task` of src/durable_threads/ledger.py: a task is claimed before its provider starts.
use durable_threads.Prelude.{
  Text, lit, Bool, true, false, not, ◌&&◌, ◌||◌, Option, none, some, List, [], ◌∷◌, ℤ, pos, negsuc,
  ltb_ℤ, eq_ℤ, ◌+ℤ◌, if◌then◌else◌, ok, err, ◌>>=◌, ◌>>◌, raise_if, contains,
}
use durable_threads.Errors.{Error, Res, ledger_busy_error, ledger_state_error, type_error}
use durable_threads.Json.{
  Json, Fields, int, str, arr, obj, end, field, get_field, put_field, truthy, is_text,
}
use durable_threads.Ledger.{Disk, read, save, locked, put_nonempty}

-- `value in {...}` hashes the value first.
abbrev unhashable : Option Json → Bool
unhashable (some (arr vs)) = true
unhashable (some (obj fs)) = true
unhashable _ = false

-- `type(value) is int`.
abbrev pub exact_int : Option Json → Error → Res ℤ
exact_int (some (int z)) e = ok z
exact_int _ e = err e

abbrev pub is_end : Fields → Bool
is_end end = true
is_end (field k v fs) = false

-- A recorded task that is no object, or an empty one, is refused; no record counts as empty.
abbrev pub existing_of : Option Json → Res Fields
existing_of none = ok end
existing_of (some (obj (field k v fs))) = ok (field k v fs)
existing_of (some _) = err (ledger_state_error "task has invalid recorded state; inspect it first")

abbrev text_given : Option Text → Bool
text_given none = false
text_given (some []) = false
text_given (some (c ∷ t)) = true

abbrev same_text : Option Json → Option Text → Bool
same_text v none = false
same_text v (some t) = is_text v t

-- The limit that was recorded first stays.
unfoldable pub check_limit : Fields → ℤ → Res (Unit {0})
check_limit existing max_followups = if is_end existing then ok tt else (do
  limit ←
      exact_int (get_field (lit "maxFollowups") existing)
        (ledger_state_error "task has no valid recorded retry limit; inspect it first")
  raise_if (ltb_ℤ limit (pos 0))
      (ledger_state_error "task has no valid recorded retry limit; inspect it first")
  raise_if (not (eq_ℤ max_followups limit)) (ledger_state_error "task retry limit cannot change"))

-- `previous_index`.
unfoldable pub previous_index : Fields → Res ℤ
previous_index existing = if is_end existing then ok (negsuc 0) else (do
  index ←
      exact_int (get_field (lit "followups") existing)
        (ledger_state_error "task has invalid follow-up state")
  raise_if (ltb_ℤ index (pos 0)) (ledger_state_error "task has invalid follow-up state")
  ok index)

abbrev settled : List Text
settled = lit "blocked" ∷ lit "unknown" ∷ lit "complete" ∷ lit "unverified" ∷ []

unfoldable pub is_settled : Option Json → Bool
is_settled (some (str t)) = contains t settled
is_settled _ = false

-- The writer of the record, its provider and its session.
unfoldable pub check_owner : (provider : Text) (thread_id : Option Text) → Fields → Res (Unit {0})
check_owner provider thread_id existing = do
  raise_if (is_text (get_field (lit "status") existing) (lit "running"))
      (ledger_busy_error "task already has a local active writer")
  raise_if
      (truthy (get_field (lit "provider") existing)
        && not (is_text (get_field (lit "provider") existing) provider))
      (ledger_state_error "task belongs to provider")
  raise_if
      (truthy (get_field (lit "threadId") existing)
        && not (same_text (get_field (lit "threadId") existing) thread_id))
      (ledger_state_error "task requires its recorded provider session ID")
  raise_if (truthy (get_field (lit "threadId") existing) && not (text_given thread_id))
      (ledger_state_error "task cannot resume without its session ID")
  ok tt

-- The checks of a claim against the task's record.
unfoldable pub check_claim :
    (provider : Text) (thread_id : Option Text) (followup_index max_followups : ℤ)
    → Fields
    → Res (Unit {0})
check_claim provider thread_id followup_index max_followups existing = do
  check_owner provider thread_id existing
  check_limit existing max_followups
  previous ← previous_index existing
  raise_if (not (eq_ℤ followup_index (previous +ℤ pos 1)))
      (ledger_state_error "task expects follow-up index")
  raise_if (unhashable (get_field (lit "status") existing)) (type_error "unhashable type")
  raise_if (is_settled (get_field (lit "status") existing))
      (ledger_state_error "task cannot retry in its current state; inspect it first")

-- The record of a claimed task.
unfoldable pub claimed_task :
    Text
    → (task_id role provider : Text) (thread_id : Option Text) (followup_index max_followups : ℤ)
    → Fields
    → Fields
claimed_task now task_id role provider thread_id followup_index max_followups existing =
    put_nonempty (lit "threadId") thread_id (
      put_field (lit "updatedAt") (str now) (
        put_field (lit "maxFollowups") (int max_followups) (
          put_field (lit "followups") (int followup_index) (
            put_field (lit "status") (str (lit "running")) (
              put_field (lit "provider") (str provider) (
                put_field (lit "role") (str role)
                  (put_field (lit "taskId") (str task_id) existing)))))))

unfoldable pub check_range : Option Json → Option Json → Res (ℤ × ℤ)
check_range followup_index max_followups = do
  index ← exact_int followup_index (ledger_state_error "follow-up index and limit must be integers")
  limit ← exact_int max_followups (ledger_state_error "follow-up index and limit must be integers")
  raise_if (ltb_ℤ index (pos 0) || ltb_ℤ limit (pos 0) || ltb_ℤ limit index)
      (ledger_state_error "followup index out of range")
  ok (index, limit)

-- The body under the lock: the task that is returned and the text that is written.
unfoldable pub begin_body :
    Text
    → (task_id role provider : Text) (thread_id : Option Text)
      (followup_index max_followups : Option Json)
    → Option Json
    → Res (Fields × Json)
begin_body now task_id role provider thread_id followup_index max_followups file = do
  range ← check_range followup_index max_followups
  found ← read now file
  existing ← existing_of (get_field task_id found.1)
  check_claim provider thread_id range.0 range.1 existing
  let task = claimed_task now task_id role provider thread_id range.0 range.1 existing
  ok (task, save now (put_field (lit "tasks") (obj (put_field task_id (obj task) found.1)) found.0))

unfoldable pub begin_task :
    Text
    → (task_id role provider : Text) (thread_id : Option Text)
      (followup_index max_followups : Option Json)
    → Disk
    → Res Fields × Disk
begin_task now task_id role provider thread_id followup_index max_followups =
    locked (begin_body now task_id role provider thread_id followup_index max_followups)
