-- ===== src/Ledger/Retries.antt =====
-- Sequences of calls of `begin_task` and `record_task` of src/durable_threads/ledger.py.
use durable_threads.Prelude.{
  ==_iff, subst, ℕ, suc, ◌+◌, Text, lit, ◌==◌, false, Option, none, some, ℤ, pos, ◌≡◌, refl, ◌≤ℤ◌,
  arith, ok, ok-injective, Bool-cases, ap, ◌∙◌, sym, inl, inr,
}
use durable_threads.Json.{Json, Fields, obj, get_field, put_field}
use durable_threads.Ledger.{put_given, Disk, record_task, recorded_task, is_obj}
use durable_threads.Ledger.Begin.{begin_task, check_range}
use durable_threads.Ledger.Storage.{get_field-put_same, get_field-put_other}
use durable_threads.Ledger.Claims.{get_field-put_nonempty, locked-ok, begin_task-Claim}
use durable_threads.Ledger.Numbering.{
  Numbered, Tracked, stored-Tracked, Claim-Tracked, Claim-next, Claim-other,
}

pub get_field-put_given :
    (k j : Text) (value : Option Json) (fs : Fields)
    → (k == j) ≡ false
    → get_field j (put_given k value fs) ≡ get_field j fs
get_field-put_given k j none fs h = refl
get_field-put_given k j (some v) fs h = get_field-put_other k j v fs h

module _ (now task_id role status : Text) (provider thread_id : Option Text)
    (result usage : Option Json) where
  recorded_task-followups :
      (fs : Fields)
      → get_field
          (lit "followups")
          (recorded_task now task_id role status provider thread_id result usage fs)
        ≡ get_field (lit "followups") fs
  unfolding recorded_task
  recorded_task-followups fs =
      get_field-put_given (lit "usage") (lit "followups") usage _ (unfold lit ◌==◌ in refl)
      ∙ get_field-put_given (lit "result") (lit "followups") result _ (unfold lit ◌==◌ in refl)
      ∙ get_field-put_nonempty (lit "threadId") (lit "followups") thread_id _
          (unfold lit ◌==◌ in refl)
      ∙ get_field-put_nonempty (lit "provider") (lit "followups") provider _
          (unfold lit ◌==◌ in refl)
      ∙ get_field-put_other (lit "updatedAt") (lit "followups") _ _ (unfold lit ◌==◌ in refl)
      ∙ get_field-put_other (lit "status") (lit "followups") _ _ (unfold lit ◌==◌ in refl)
      ∙ get_field-put_other (lit "role") (lit "followups") _ _ (unfold lit ◌==◌ in refl)
      ∙ get_field-put_other (lit "taskId") (lit "followups") _ _ (unfold lit ◌==◌ in refl)

  recorded_task-max_followups :
      (fs : Fields)
      → get_field
          (lit "maxFollowups")
          (recorded_task now task_id role status provider thread_id result usage fs)
        ≡ get_field (lit "maxFollowups") fs
  unfolding recorded_task
  recorded_task-max_followups fs =
      get_field-put_given (lit "usage") (lit "maxFollowups") usage _ (unfold lit ◌==◌ in refl)
      ∙ get_field-put_given (lit "result") (lit "maxFollowups") result _ (unfold lit ◌==◌ in refl)
      ∙ get_field-put_nonempty (lit "threadId") (lit "maxFollowups") thread_id _
          (unfold lit ◌==◌ in refl)
      ∙ get_field-put_nonempty (lit "provider") (lit "maxFollowups") provider _
          (unfold lit ◌==◌ in refl)
      ∙ get_field-put_other (lit "updatedAt") (lit "maxFollowups") _ _ (unfold lit ◌==◌ in refl)
      ∙ get_field-put_other (lit "status") (lit "maxFollowups") _ _ (unfold lit ◌==◌ in refl)
      ∙ get_field-put_other (lit "role") (lit "maxFollowups") _ _ (unfold lit ◌==◌ in refl)
      ∙ get_field-put_other (lit "taskId") (lit "maxFollowups") _ _ (unfold lit ◌==◌ in refl)

  recorded_task-Numbered :
      (n : ℕ) (m : ℤ) (fs : Fields)
      → Numbered n m fs
      → Numbered n m (recorded_task now task_id role status provider thread_id result usage fs)
  recorded_task-Numbered n m fs x = record {
    followups = recorded_task-followups fs ∙ x.followups;
    limit = recorded_task-max_followups fs ∙ x.limit;
    within = x.within;
  }

  -- `record_task` leaves the number and the limit of every tracked task.
  record_task-Tracked :
      (tracked : Text) (n : ℕ) (m : ℤ) (disk disk' : Disk) (v : Json)
      → Tracked tracked n m disk
      → record_task now task_id role status provider thread_id result usage disk ≡ (ok v, disk')
      → Tracked tracked n m disk'
  unfolding record_task
  record_task-Tracked tracked n m disk disk' v t h =
      let (json, body, file, unlocked, free) = locked-ok _ disk disk' v h in
      let written = ok-injective (simp (t.reads now) at body) in
      let file_is = file ∙ sym (ap (λ (x : Json × Json). some x.1) written) in
      elim (Bool-cases (task_id == tracked)) [
        | inl e ↦
            let same_id = (==_iff task_id tracked).0 e in
            let found = ap (λ (k : Text). get_field k t.tasks) same_id ∙ t.recorded in
            let existing = is_obj (get_field task_id t.tasks) in
            let task =
              recorded_task now task_id role status provider thread_id result usage existing in
            stored-Tracked tracked now n m t.ledger (put_field task_id (obj task) t.tasks) task
              disk' file_is
              (subst
                (λ (k : Text). get_field k (put_field task_id (obj task) t.tasks) ≡ some (obj task))
                same_id (get_field-put_same task_id (obj task) t.tasks))
              (recorded_task-Numbered n m existing
                (subst (Numbered n m) (sym (ap is_obj found)) t.numbered))
        | inr e ↦
            stored-Tracked tracked now n m t.ledger _ t.task disk' file_is
              (get_field-put_other task_id tracked _ t.tasks e ∙ t.recorded) t.numbered
      ]

-- Calls that returned, from one disk to another; the number counts the claims of `task_id`. A call
-- that raises leaves the disk, so it is no step here.
pub data History (task_id : Text) : ℕ → Disk → Disk → Type 0 where
  no_call : {disk : Disk} → History task_id 0 disk disk
  claims :
      {k : ℕ} {disk before after : Disk} (now role provider : Text) (thread_id : Option Text)
      (index limit : Option Json) (task : Fields)
      → History task_id k disk before
      → begin_task now task_id role provider thread_id index limit before ≡ (ok task, after)
      → History task_id (suc k) disk after
  claims_other :
      {k : ℕ} {disk before after : Disk} (now other role provider : Text) (thread_id : Option Text)
      (index limit : Option Json) (task : Fields)
      → (other == task_id) ≡ false
      → History task_id k disk before
      → begin_task now other role provider thread_id index limit before ≡ (ok task, after)
      → History task_id k disk after
  records :
      {k : ℕ} {disk before after : Disk} (now any_id role status : Text)
      (provider thread_id : Option Text) (result usage : Option Json) (v : Json)
      → History task_id k disk before
      → record_task now any_id role status provider thread_id result usage before ≡ (ok v, after)
      → History task_id k disk after

History-Tracked :
    (task_id : Text) (k n : ℕ) (m : ℤ) (disk disk' : Disk)
    → Tracked task_id n m disk
    → History task_id k disk disk'
    → Tracked task_id (k + n) m disk'
History-Tracked task_id k n m disk disk' t no_call =
    subst (λ z. Tracked task_id z m disk) (omega arith) t
History-Tracked task_id k n m disk disk' t
      (claims {k = j} {before = before} now role provider thread_id index limit task h e) =
    let c = begin_task-Claim now task_id role provider thread_id index limit before disk' task e in
    subst (λ z. Tracked task_id z m disk') (omega arith)
      (Claim-next now task_id role provider thread_id index limit before disk' task (j + n) m
        (History-Tracked task_id j n m disk before t h) c)
History-Tracked task_id k n m disk disk' t
      (claims_other {before = before} now other role provider thread_id index limit task apart h
        e) =
    let c = begin_task-Claim now other role provider thread_id index limit before disk' task e in
    Claim-other now other role provider thread_id index limit before disk' task task_id (k + n) m
      apart (History-Tracked task_id k n m disk before t h) c
History-Tracked task_id k n m disk disk' t
      (records {before = before} now any_id role status provider thread_id result usage v h e) =
    record_task-Tracked now any_id role status provider thread_id result usage task_id (k + n) m
      before disk' v (History-Tracked task_id k n m disk before t h) e

-- After a claim with index `n` and limit `m`, in any sequence of calls of `begin_task` and
-- `record_task` that return, for this task and others, at most `m - n` further claims of the task
-- succeed: with `k` of them, `n + k` is at most `m`.
pub begin_task_bounded :
    (now task_id role provider : Text) (thread_id : Option Text) (index limit : Option Json)
    (disk disk₁ disk₂ : Disk) (task : Fields) (n k : ℕ) (m : ℤ)
    → begin_task now task_id role provider thread_id index limit disk ≡ (ok task, disk₁)
    → check_range index limit ≡ ok (pos n, m)
    → History task_id k disk₁ disk₂
    → pos (k + n) ≤ℤ m
begin_task_bounded now task_id role provider thread_id index limit disk disk₁ disk₂ task n k m h
      range history =
    let c = begin_task-Claim now task_id role provider thread_id index limit disk disk₁ task h in
    let same = ok-injective (sym c.range ∙ range) in
    let t =
      Claim-Tracked now task_id role provider thread_id index limit disk disk₁ task n c
        (ap (λ (x : ℤ × ℤ). x.0) same) in
    subst (λ (z : ℤ). pos (k + n) ≤ℤ z) (ap (λ (x : ℤ × ℤ). x.1) same)
      (History-Tracked task_id k n c.m disk₁ disk₂ t history).numbered.within
