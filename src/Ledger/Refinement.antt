-- ===== src/Ledger/Refinement.antt =====
-- The ledger of src/durable_threads/ledger.py as a store of tasks: what sequences of calls mean with the
-- file, its lock and its layout out of sight.
use durable_threads.Prelude.{
  arith, Text, lit, ◌==◌, Option, some, ℤ, ◌≡◌, refl, sym, ap, ◌∙◌, subst, ok, err, ok-injective,
  if◌then◌else◌,
}
use durable_threads.Errors.{Error, Res}
use durable_threads.Json.{Json, Fields, obj, get_field, put_field}
use durable_threads.Ledger.{
  Disk, read, save, locked, redact_fields, record_task, recorded_task, is_obj,
}
use durable_threads.Ledger.Begin.{begin_task, check_claim, claimed_task, existing_of}
use durable_threads.Ledger.Storage.{
  get_field-put_same, get_field-put_field, get_field-redact_fields, read-save, saved, redacted,
}
use durable_threads.Ledger.Claims.{Claim, begin_task-Claim, begin_task_raises, locked-ok}

-- The tasks by their ids.
abbrev pub Store : Type 0
Store = Text → Option Json

-- Writing a task: the store is redacted as a whole.
abbrev pub write : Text → Fields → Store → Store
write task_id task store j = redacted (if task_id == j then some (obj task) else store j)

-- One step of the store: a claim that its checks allow, or a record.
pub data Step : Store → Store → Type 0 where
  claim :
      {store : Store} (now task_id role provider : Text) (thread_id : Option Text) (i m : ℤ)
      (existing : Fields)
      → existing_of (store task_id) ≡ ok existing
      → check_claim provider thread_id i m existing ≡ ok tt
      → Step store
          (write task_id (claimed_task now task_id role provider thread_id i m existing) store)
  record_step :
      {store : Store} (now task_id role status : Text) (provider thread_id : Option Text)
      (result usage : Option Json)
      → Step store (
          write task_id
            (recorded_task now task_id role status provider thread_id result usage
              (is_obj (store task_id)))
            store)

pub data Steps : Store → Store → Type 0 where
  stay : {store : Store} → Steps store store
  step : {a b c : Store} → Steps a b → Step b c → Steps a c

-- A disk whose ledger can be read and holds the tasks of a store.
pub record IsView (disk : Disk) (store : Store) : Type 0 where
  pub tasks : Fields
  pub reads : (now : Text) → (ledger : Fields) × (read now disk.file ≡ ok (ledger, tasks))
  pub holds : (j : Text) → get_field j tasks ≡ store j

-- Calls on the disk, one after the other; a call that raises may stand between.
pub data Calls : Disk → Disk → Type 0 where
  no_calls : {disk : Disk} → Calls disk disk
  begins :
      {disk before : Disk} (now task_id role provider : Text) (thread_id : Option Text)
      (index limit : Option Json)
      → Calls disk before
      → Calls disk (begin_task now task_id role provider thread_id index limit before).1
  puts :
      {disk before : Disk} (now task_id role status : Text) (provider thread_id : Option Text)
      (result usage : Option Json)
      → Calls disk before
      → Calls disk (record_task now task_id role status provider thread_id result usage before).1

-- What a call that wrote a task leaves.
written-IsView :
    (now task_id : Text) (ledger tasks task : Fields) (store : Store) (disk : Disk)
    → ((j : Text) → get_field j tasks ≡ store j)
    → disk.file
      ≡ some (save now (put_field (lit "tasks") (obj (put_field task_id (obj task) tasks)) ledger))
    → IsView disk (write task_id task store)
written-IsView now task_id ledger tasks task store disk holds file =
    let written = put_field task_id (obj task) tasks in
    record {
      tasks = redact_fields written;
      reads = λ now'. (
        saved now (put_field (lit "tasks") (obj written) ledger),
        ap (read now') file
            ∙ read-save now now' _ written (get_field-put_same (lit "tasks") (obj written) ledger),
      );
      holds = λ j.
          get_field-redact_fields j written
          ∙ ap redacted (get_field-put_field task_id j (obj task) tasks)
          ∙ ap (λ v. redacted (if task_id == j then some (obj task) else v)) (holds j);
    }

-- A call from a disk in view of a store ends in view of a store that is at most one step away.
abbrev Reached : Store → Disk → Type 0
Reached store disk = (after : Store) × Steps store after × IsView disk after

claimed-Reached :
    (now task_id role provider : Text) (thread_id : Option Text) (index limit : Option Json)
    (disk disk' : Disk) (task : Fields) (store : Store)
    → IsView disk store
    → Claim now task_id role provider thread_id index limit disk task disk'
    → Reached store disk'
claimed-Reached now task_id role provider thread_id index limit disk disk' task store v c =
    let (ledger, reads) = v.reads now in
    let same = ap (λ (x : Fields × Fields). x.1) (ok-injective (sym reads ∙ c.loads)) in
    let holds : (j : Text) → get_field j c.tasks ≡ store j =
      λ j. ap (get_field j) (sym same) ∙ v.holds j in
    let next = claimed_task now task_id role provider thread_id c.i c.m c.existing in
    (
      write task_id next store,
      step stay (
          claim now task_id role provider thread_id c.i c.m c.existing
            (ap existing_of (sym (holds task_id)) ∙ c.recorded) c.passes),
      written-IsView now task_id c.ledger c.tasks next store disk' holds (
          c.written
          ∙ ap
              (λ t. some (
                save now
                  (put_field (lit "tasks") (obj (put_field task_id (obj t) c.tasks)) c.ledger)))
              (sym c.claimed)),
    )

same-Reached :
    (store : Store) (disk disk' : Disk) → disk' ≡ disk → IsView disk store → Reached store disk'
same-Reached store disk disk' e v = (store, stay, subst (λ d. IsView d store) (sym e) v)

module _ (now task_id role provider : Text) (thread_id : Option Text)
    (index limit : Option Json) where
  begins-Reached :
      (disk : Disk) (store : Store) (reply : Res Fields × Disk)
      → IsView disk store
      → begin_task now task_id role provider thread_id index limit disk ≡ reply
      → Reached store reply.1
  begins-Reached disk store (ok task, disk') v h =
      claimed-Reached now task_id role provider thread_id index limit disk disk' task store v
        (begin_task-Claim now task_id role provider thread_id index limit disk disk' task h)
  begins-Reached disk store (err e, disk') v h =
      same-Reached store disk disk'
        (sym (ap (λ (x : Res Fields × Disk). x.1) h)
          ∙ begin_task_raises now task_id role provider thread_id index limit disk e
              (ap (λ (x : Res Fields × Disk). x.0) h))
        v

module _ (now task_id role status : Text) (provider thread_id : Option Text)
    (result usage : Option Json) where
  record_task_raises :
      (disk : Disk) (e : Error)
      → (record_task now task_id role status provider thread_id result usage disk).0 ≡ err e
      → (record_task now task_id role status provider thread_id result usage disk).1 ≡ disk
  unfolding record_task locked
  record_task_raises disk e h = ground arith

  puts-Reached :
      (disk : Disk) (store : Store) (reply : Res Json × Disk)
      → IsView disk store
      → record_task now task_id role status provider thread_id result usage disk ≡ reply
      → Reached store reply.1
  unfolding record_task
  puts-Reached disk store (ok value, disk') v h =
      let (ledger, reads) = v.reads now in
      let (json, body, file, unlocked, free) = locked-ok _ disk disk' value h in
      let written = ok-injective (simp reads at body) in
      let task =
        recorded_task now task_id role status provider thread_id result usage
          (is_obj (get_field task_id v.tasks)) in
      let view =
        written-IsView now task_id ledger v.tasks task store disk' v.holds
          (file ∙ sym (ap (λ (x : Json × Json). some x.1) written)) in
      (
        write task_id
            (recorded_task now task_id role status provider thread_id result usage
              (is_obj (store task_id)))
            store,
        step stay (record_step now task_id role status provider thread_id result usage),
        subst
            (λ (t : Option Json). IsView disk' (
              write task_id
                (recorded_task now task_id role status provider thread_id result usage (is_obj t))
                store))
            (v.holds task_id) view,
      )
  puts-Reached disk store (err e, disk') v h =
      same-Reached store disk disk'
        (sym (ap (λ (x : Res Json × Disk). x.1) h)
          ∙ record_task_raises disk e (ap (λ (x : Res Json × Disk). x.0) h))
        v

joined : {a b c : Store} → Steps a b → Steps b c → Steps a c
joined p stay = p
joined p (step q s) = step (joined p q) s

-- Any sequence of calls of `begin_task` and `record_task`, those that raise included, takes a disk that
-- shows a store of tasks to a disk that shows one which steps of the store lead to: claims that
-- the checks allow on what the store holds, and records, each followed by the redaction.
pub Calls-Steps :
    (disk disk' : Disk) (store : Store)
    → Calls disk disk'
    → IsView disk store
    → (after : Store) × Steps store after × IsView disk' after
Calls-Steps disk disk' store no_calls v = (store, stay, v)
Calls-Steps disk disk' store
      (begins {before = before} now task_id role provider thread_id index limit calls) v =
    let (middle, steps, w) = Calls-Steps disk before store calls v in
    let (after, last, x) =
      begins-Reached now task_id role provider thread_id index limit before middle _ w refl in
    (after, joined steps last, x)
Calls-Steps disk disk' store
      (puts {before = before} now task_id role status provider thread_id result usage calls) v =
    let (middle, steps, w) = Calls-Steps disk before store calls v in
    let (after, last, x) =
      puts-Reached now task_id role status provider thread_id result usage before middle _ w refl in
    (after, joined steps last, x)
