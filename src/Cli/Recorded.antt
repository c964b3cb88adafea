-- ===== src/Cli/Recorded.antt =====
-- What `record_task` of src/durable_threads/ledger.py leaves on a disk whose ledger can be read and is
-- not locked, as `_dispatch` of src/durable_threads/cli.py finds it after its claim.
use durable_threads.Prelude.{Text, lit, ◌==◌, false, Option, some, ◌≡◌, refl, ok, ap, ◌∙◌, subst}
use durable_threads.Json.{Json, Fields, str, obj, get_field, put_field}
use durable_threads.Ledger.{
  Disk, read, save, locked, redact_text, redact_fields, redact, record_task, recorded_task, is_obj,
}
use durable_threads.Ledger.Begin.{begin_task}
use durable_threads.Ledger.Storage.{
  get_field-put_same, get_field-put_other, get_field-redact_fields, read-save, saved, redacted,
}
use durable_threads.Ledger.Claims.{begin_task-Claim, claimed-status, get_field-put_nonempty}
use durable_threads.Ledger.Retries.{get_field-put_given}
use durable_threads.Ledger.Exclusion.{redacted_obj, redacted_running}

-- A disk that no call has locked and whose ledger can be read.
pub record IsReadable (disk : Disk) : Type 0 where
  pub ledger : Fields
  pub tasks : Fields
  pub reads : (now : Text) → read now disk.file ≡ ok (ledger, tasks)
  pub unlocked : disk.lock ≡ false

-- A readable disk whose ledger has the record of a task with a status.
pub record HasStatus (task_id status : Text) (disk : Disk) : Type 0 where
  pub readable : IsReadable disk
  pub task : Fields
  pub recorded : get_field task_id readable.tasks ≡ some (obj task)
  pub has : get_field (lit "status") task ≡ some (str status)

-- The claim of a task leaves a readable disk whose record of the task is running.
pub begin_task-HasStatus :
    (now task_id role provider : Text) (thread_id : Option Text) (index limit : Option Json)
    (disk disk' : Disk) (task : Fields)
    → begin_task now task_id role provider thread_id index limit disk ≡ (ok task, disk')
    → HasStatus task_id (lit "running") disk'
begin_task-HasStatus now task_id role provider thread_id index limit disk disk' task h =
    let c = begin_task-Claim now task_id role provider thread_id index limit disk disk' task h in
    let tasks = put_field task_id (obj task) c.tasks in
    record {
      readable = record {
        ledger = saved now (put_field (lit "tasks") (obj tasks) c.ledger);
        tasks = redact_fields tasks;
        reads = λ now'.
            ap (read now') c.written
            ∙ read-save now now' _ tasks (get_field-put_same (lit "tasks") (obj tasks) c.ledger);
        unlocked = c.unlocked;
      };
      task = redact_fields task;
      recorded =
          get_field-redact_fields task_id tasks
          ∙ ap redacted (get_field-put_same task_id (obj task) c.tasks)
          ∙ redacted_obj task;
      has =
          get_field-redact_fields (lit "status") task
          ∙ ap redacted (
              subst (λ fs. get_field (lit "status") fs ≡ some (str (lit "running"))) c.claimed
                (claimed-status now task_id role provider thread_id c.i c.m c.existing))
          ∙ redacted_running;
    }

redacted_text : (t : Text) → redacted (some (str t)) ≡ some (str (redact_text t))
unfolding redact
redacted_text t = refl

module _ (now task_id role status : Text) (provider thread_id : Option Text)
    (result usage : Option Json) where
  recorded_task-status :
      (fs : Fields)
      → get_field
          (lit "status")
          (recorded_task now task_id role status provider thread_id result usage fs)
        ≡ some (str status)
  unfolding recorded_task
  recorded_task-status fs =
      get_field-put_given (lit "usage") (lit "status") usage _ (unfold lit ◌==◌ in refl)
      ∙ get_field-put_given (lit "result") (lit "status") result _ (unfold lit ◌==◌ in refl)
      ∙ get_field-put_nonempty (lit "threadId") (lit "status") thread_id _ (unfold lit ◌==◌ in refl)
      ∙ get_field-put_nonempty (lit "provider") (lit "status") provider _ (unfold lit ◌==◌ in refl)
      ∙ get_field-put_other (lit "updatedAt") (lit "status") _ _ (unfold lit ◌==◌ in refl)
      ∙ get_field-put_same (lit "status") _ _

  -- The call returns, and its record has the status after the redaction of texts.
  pub record_task-HasStatus :
      (disk : Disk)
      → IsReadable disk
      → redact_text status ≡ status
      → (v : Json) × (disk' : Disk) × (record_task now task_id role status provider thread_id result
            usage disk
          ≡ (ok v, disk'))
        × HasStatus task_id status disk'
  record_task-HasStatus disk r kept =
      let existing = is_obj (get_field task_id r.tasks) in
      let task = recorded_task now task_id role status provider thread_id result usage existing in
      let tasks = put_field task_id (obj task) r.tasks in
      let fs = put_field (lit "tasks") (obj tasks) r.ledger in
      (
        obj (redact_fields task),
        record { file = some (save now fs); lock = false },
        unfold record_task locked in (rw r.unlocked (rw (r.reads now) refl)),
        record {
          readable = record {
            ledger = saved now fs;
            tasks = redact_fields tasks;
            reads = λ now'.
                read-save now now' fs tasks (get_field-put_same (lit "tasks") (obj tasks) r.ledger);
            unlocked = refl;
          };
          task = redact_fields task;
          recorded =
              get_field-redact_fields task_id tasks
              ∙ ap redacted (get_field-put_same task_id (obj task) r.tasks)
              ∙ redacted_obj task;
          has =
              get_field-redact_fields (lit "status") task
              ∙ ap redacted (recorded_task-status existing)
              ∙ redacted_text status
              ∙ ap (λ (t : Text). some (str t)) kept;
        },
      )
