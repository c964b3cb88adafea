-- ===== src/Ledger/Exclusion.antt =====
-- A second claim of a task, after `begin_task` of src/durable_threads/ledger.py has claimed it.
use durable_threads.Prelude.{Text, lit, ==_refl, Option, some, ℤ, ◌≡◌, refl, ok, err, ap, ◌∙◌, sym}
use durable_threads.Errors.{ledger_busy_error}
use durable_threads.Json.{Json, Fields, str, obj, end, field, get_field, put_field, is_text}
use durable_threads.Regex.{sub}
use durable_threads.Ledger.{Disk, read, locked, redact, redact_fields, redact_text, secret}
use durable_threads.Ledger.Begin.{
  check_owner, begin_task, begin_body, check_claim, check_range, existing_of,
}
use durable_threads.Ledger.Storage.{
  get_field-put_same, get_field-redact_fields, read-save, saved, redacted,
}
use durable_threads.Ledger.Claims.{Claim, begin_task-Claim, claimed-status}

pub existing_of-ok :
    (k : Text) (v : Json) (fs : Fields)
    → get_field k fs ≡ some v
    → existing_of (some (obj fs)) ≡ ok fs
unfolding get_field
existing_of-ok k v end h = absurd cc
existing_of-ok k v (field j w fs) h = refl

running_kept : redact_text (lit "running") ≡ lit "running"
unfolding redact_text secret sub lit
running_kept = refl

check_claim-running :
    (provider : Text) (thread_id : Option Text) (i m : ℤ) (fs : Fields)
    → get_field (lit "status") fs ≡ some (str (lit "running"))
    → check_claim provider thread_id i m fs
      ≡ err (ledger_busy_error "task already has a local active writer")
unfolding check_claim check_owner is_text
check_claim-running provider thread_id i m fs h = rw h (rw (==_refl (lit "running")))

pub redacted_obj : (fs : Fields) → redacted (some (obj fs)) ≡ some (obj (redact_fields fs))
unfolding redact
redacted_obj fs = refl

pub redacted_running : redacted (some (str (lit "running"))) ≡ some (str (lit "running"))
unfolding redact
redacted_running = ap (λ (t : Text). some (str t)) running_kept

claim_again :
    (now task_id role provider : Text) (thread_id : Option Text) (index limit : Option Json)
    (i m : ℤ) (file : Option Json) (ledger tasks recorded : Fields)
    → check_range index limit ≡ ok (i, m)
    → read now file ≡ ok (ledger, tasks)
    → get_field task_id tasks ≡ some (obj recorded)
    → get_field (lit "status") recorded ≡ some (str (lit "running"))
    → begin_body now task_id role provider thread_id index limit file
      ≡ err (ledger_busy_error "task already has a local active writer")
unfolding begin_body
claim_again now task_id role provider thread_id index limit i m file ledger tasks recorded range
      reads found status =
    rw range (
      rw reads (
        rw found (
          rw (existing_of-ok (lit "status") (str (lit "running")) recorded status)
            (rw (check_claim-running provider thread_id i m recorded status)))))

module _ (now task_id role provider : Text) (thread_id : Option Text) (index limit : Option Json)
    (disk disk' : Disk) (task : Fields) where
  -- The tasks that the next call reads, and the record of the claimed one among them.
  pub reads_back :
      (now' : Text) (c : Claim now task_id role provider thread_id index limit disk task disk')
      → (ledger tasks : Fields) × (read now' disk'.file ≡ ok (ledger, tasks))
        × (get_field task_id tasks ≡ some (obj (redact_fields task)))
  reads_back now' c =
      let tasks = put_field task_id (obj task) c.tasks in
      (
        saved now (put_field (lit "tasks") (obj tasks) c.ledger),
        redact_fields tasks,
        rw c.written
            (read-save now now' _ tasks (get_field-put_same (lit "tasks") (obj tasks) c.ledger)),
        get_field-redact_fields task_id tasks
            ∙ ap redacted (get_field-put_same task_id (obj task) c.tasks)
            ∙ redacted_obj task,
      )

  -- On the disk that a call of `begin_task` leaves when it returns, a further call for that task whose
  -- index and limit are integers in range raises LedgerBusyError and leaves the disk, whatever its
  -- other arguments.
  pub begin_task_busy :
      (now' role' provider' : Text) (thread_id' : Option Text) (index' limit' : Option Json)
      (i m : ℤ)
      → begin_task now task_id role provider thread_id index limit disk ≡ (ok task, disk')
      → check_range index' limit' ≡ ok (i, m)
      → begin_task now' task_id role' provider' thread_id' index' limit' disk'
        ≡ (err (ledger_busy_error "task already has a local active writer"), disk')
  begin_task_busy now' role' provider' thread_id' index' limit' i m h range =
      let c = begin_task-Claim now task_id role provider thread_id index limit disk disk' task h in
      let (ledger, tasks, reads, found) = reads_back now' c in
      let status =
        get_field-redact_fields (lit "status") task
        ∙ ap redacted (
            ap (get_field (lit "status")) (sym c.claimed)
            ∙ claimed-status now task_id role provider thread_id c.i c.m c.existing)
        ∙ redacted_running in
      let body =
        claim_again now' task_id role' provider' thread_id' index' limit' i m disk'.file ledger
          tasks (redact_fields task) range reads found status in
      unfold begin_task locked in rw c.unlocked (rw body refl)
