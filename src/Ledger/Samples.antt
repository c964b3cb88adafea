-- ===== src/Ledger/Samples.antt =====
-- A ledger with no file: a claim, a second writer, a recorded failure and a retry.
use durable_threads.Prelude.{
  ℕ, ◌+◌, codes, lit, ◌==◌, contains, false, Option, none, some, pos, ◌+ℤ◌, ◌≡◌, refl, ◌≤ℤ◌, ok,
  err, ok_or,
}
use durable_threads.Errors.{Res, ledger_busy_error}
use durable_threads.Json.{Json, Fields, int, obj, end, get_field, put_field, truthy, is_text}
use durable_threads.Regex.{sub}
use durable_threads.Ledger.{
  Disk, read, save, locked, redact, redact_fields, redact_items, redact_text, secret, record_task,
  recorded_task,
}
use durable_threads.Ledger.Begin.{
  begin_task, begin_body, check_claim, check_owner, claimed_task, check_range, check_limit,
  previous_index, is_settled,
}
use durable_threads.Ledger.Exclusion.{begin_task_busy}
use durable_threads.Ledger.Refinement.{
  Store, Steps, IsView, Calls, no_calls, begins, puts, Calls-Steps,
}
use durable_threads.Ledger.Retries.{History, no_call, claims, records, begin_task_bounded}

unfoldable pub ledger : Unit {0}
unfolding read save locked redact redact_fields redact_items redact_text secret sub record_task
    recorded_task begin_task begin_body check_claim check_owner claimed_task check_range check_limit
    previous_index truthy is_text is_settled get_field put_field lit ◌==◌ contains ◌+ℤ◌
ledger = tt

abbrev pub empty_disk : Disk
empty_disk = record { file = none; lock = false }

abbrev number : ℕ → Option Json
number n = some (int (pos n))

abbrev claim : ℕ → Disk → Res Fields × Disk
claim n =
    begin_task (codes "now") (codes "t1") (codes "worker") (codes "codex") none (number n)
      (number 1)

abbrev first_disk : Disk
first_disk = (claim 0 empty_disk).1

abbrev first_task : Fields
first_task = ok_or (claim 0 empty_disk).0 end

abbrev recorded : Res Json × Disk
recorded =
    record_task (codes "now") (codes "t1") (codes "worker") (codes "failed") none none none none
      first_disk

abbrev second_disk : Disk
second_disk = (claim 1 recorded.1).1

secret_is_hidden : redact_text (codes "key sk-abcdefghijkl0") ≡ codes "key [REDACTED]"
unfolding ledger
secret_is_hidden = refl

first_claim : claim 0 empty_disk ≡ (ok first_task, first_disk)
unfolding ledger
first_claim = refl

begin_task_busy_example :
    claim 1 first_disk
    ≡ (err (ledger_busy_error "task already has a local active writer"), first_disk)
unfolding ledger
begin_task_busy_example =
    begin_task_busy (codes "now") (codes "t1") (codes "worker") (codes "codex") none (number 0)
      (number 1) empty_disk first_disk first_task (codes "now") (codes "worker") (codes "codex")
      none (number 1) (number 1) (pos 1) (pos 1) first_claim refl

retried : History (codes "t1") 1 first_disk second_disk
unfolding ledger
retried =
    claims (codes "now") (codes "worker") (codes "codex") none (number 1) (number 1)
      (ok_or (claim 1 recorded.1).0 end)
      (records (codes "now") (codes "t1") (codes "worker") (codes "failed") none none none none
        (ok_or recorded.0 (obj end)) no_call refl)
      refl

begin_task_bounded_example : pos (1 + 0) ≤ℤ pos 1
unfolding ledger
begin_task_bounded_example =
    begin_task_bounded (codes "now") (codes "t1") (codes "worker") (codes "codex") none (number 0)
      (number 1) empty_disk first_disk second_disk first_task 0 1 (pos 1) first_claim refl retried

abbrev no_tasks : Store
no_tasks j = none

empty-IsView : IsView empty_disk no_tasks
unfolding ledger
empty-IsView = record { tasks = end; reads = λ now. (_, refl); holds = λ j. refl }

two-Calls : Calls empty_disk recorded.1
unfolding ledger
two-Calls = puts (codes "now") (codes "t1") (codes "worker") (codes "failed") none none none none (
    begins (codes "now") (codes "t1") (codes "worker") (codes "codex") none (number 0) (number 1)
      no_calls)

Calls-Steps_example : (after : Store) × Steps no_tasks after × IsView recorded.1 after
Calls-Steps_example = Calls-Steps empty_disk recorded.1 no_tasks two-Calls empty-IsView
