-- ===== src/Ledger/Numbering.antt =====
-- The number and the limit in a task's record, and what a claim makes of them.
use durable_threads.Prelude.{
  neg_part, pos_part, subst, ℕ, suc, Text, lit, ◌==◌, true, false, not, Option, some, ℤ, pos,
  negsuc, ◌≡◌, refl, ◌≤ℤ◌, ltb_ℤ, eq_ℤ, arith, ok, >>=-eq-ok, ok-injective, ◌+ℤ◌, ap, ◌∙◌, sym,
  raise_if, ◌||◌,
}
use durable_threads.Errors.{ledger_state_error}
use durable_threads.Json.{Json, Fields, int, obj, end, field, get_field, put_field}
use durable_threads.Ledger.{Disk, read, save, redact, redact_fields}
use durable_threads.Ledger.Begin.{
  check_owner, check_claim, check_range, check_limit, previous_index, existing_of, exact_int,
  is_end,
}
use durable_threads.Ledger.Storage.{
  get_field-put_same, get_field-put_other, get_field-redact_fields, read-save, saved, redacted,
}
use durable_threads.Ledger.Claims.{Claim, claimed-followups, claimed-max_followups}
use durable_threads.Ledger.Exclusion.{existing_of-ok, redacted_obj}

pub eq_ℤ→≡ : (a b : ℤ) → eq_ℤ a b ≡ true → a ≡ b
eq_ℤ→≡ (pos a) (pos b) h = ap pos (ground arith)
eq_ℤ→≡ (pos a) (negsuc b) h = absurd (ground arith)
eq_ℤ→≡ (negsuc a) (pos b) h = absurd (ground arith)
eq_ℤ→≡ (negsuc a) (negsuc b) h = ap negsuc (ground arith)

-- A task's record with its number and its limit.
pub record Numbered (n : ℕ) (m : ℤ) (task : Fields) : Type 0 where
  pub followups : get_field (lit "followups") task ≡ some (int (pos n))
  pub limit : get_field (lit "maxFollowups") task ≡ some (int m)
  pub within : pos n ≤ℤ m

-- A disk whose ledger has the record of a task, numbered `n` of `m`.
pub record Tracked (task_id : Text) (n : ℕ) (m : ℤ) (disk : Disk) : Type 0 where
  pub ledger : Fields
  pub tasks : Fields
  pub reads : (now : Text) → read now disk.file ≡ ok (ledger, tasks)
  pub task : Fields
  pub recorded : get_field task_id tasks ≡ some (obj task)
  pub numbered : Numbered n m task

redacted_int : (z : ℤ) → redacted (some (int z)) ≡ some (int z)
unfolding redact
redacted_int z = refl

redact_fields-Numbered :
    (n : ℕ) (m : ℤ) (task : Fields) → Numbered n m task → Numbered n m (redact_fields task)
redact_fields-Numbered n m task t = record {
  followups =
      get_field-redact_fields (lit "followups") task
      ∙ ap redacted t.followups
      ∙ redacted_int (pos n);
  limit = get_field-redact_fields (lit "maxFollowups") task ∙ ap redacted t.limit ∙ redacted_int m;
  within = t.within;
}

check_claim-number :
    (provider : Text) (thread_id : Option Text) (i m' : ℤ) (n : ℕ) (m : ℤ) (task : Fields)
    → is_end task ≡ false
    → Numbered n m task
    → check_claim provider thread_id i m' task ≡ ok tt
    → (i ≡ pos (suc n)) × (m' ≡ m)
unfolding check_claim check_limit previous_index ◌+ℤ◌
check_claim-number provider thread_id i m' n m task full t h =
    let (_, owned, h₁) = >>=-eq-ok (check_owner provider thread_id task) _ h in
    let (_, limited, h₂) = >>=-eq-ok (check_limit task m') _ h₁ in
    let (previous, indexed, h₃) = >>=-eq-ok (previous_index task) _ h₂ in
    let same = limit_kept limited in
    let last = index_kept indexed in
    let (_, follows, _) =
      >>=-eq-ok
        (raise_if (not (eq_ℤ i (previous +ℤ pos 1)))
          (ledger_state_error "task expects follow-up index"))
        _ h₃ in
    (eq_ℤ→≡ i (pos (suc n)) (ground arith), eq_ℤ→≡ m' m same)
  where
    limit_kept : check_limit task m' ≡ ok tt → eq_ℤ m' m ≡ true
    limit_kept l = let e = t.limit in ground arith

    index_kept : {z : ℤ} → previous_index task ≡ ok z → z ≡ pos n
    index_kept l = let e = t.followups in ground arith

check_range-bounds :
    (index limit : Option Json) {i m : ℤ}
    → check_range index limit ≡ ok (i, m)
    → (pos 0 ≤ℤ i) × (i ≤ℤ m)
unfolding check_range
check_range-bounds index limit {i} {m} h =
    let e = ledger_state_error "follow-up index and limit must be integers" in
    let (j, _, h₁) = >>=-eq-ok (exact_int index e) _ h in
    let (l, _, h₂) = >>=-eq-ok (exact_int limit e) _ h₁ in
    let (_, inside, h₃) =
      >>=-eq-ok
        (raise_if (ltb_ℤ j (pos 0) || ltb_ℤ l (pos 0) || ltb_ℤ l j)
          (ledger_state_error "followup index out of range"))
        _ h₂ in
    let same = ok-injective h₃ in (ground arith, ground arith)

not_end : (k : Text) (v : Json) (fs : Fields) → get_field k fs ≡ some v → is_end fs ≡ false
unfolding get_field
not_end k v end h = absurd cc
not_end k v (field j w fs) h = refl

-- What a call that returned leaves: its ledger, with the tasks `tasks`.
pub stored-Tracked :
    (task_id now : Text) (n : ℕ) (m : ℤ) (ledger tasks task : Fields) (disk : Disk)
    → disk.file ≡ some (save now (put_field (lit "tasks") (obj tasks) ledger))
    → get_field task_id tasks ≡ some (obj task)
    → Numbered n m task
    → Tracked task_id n m disk
stored-Tracked task_id now n m ledger tasks task disk written found numbered = record {
  ledger = saved now (put_field (lit "tasks") (obj tasks) ledger);
  tasks = redact_fields tasks;
  reads = λ now'.
      rw written (read-save now now' _ tasks (get_field-put_same (lit "tasks") (obj tasks) ledger));
  task = redact_fields task;
  recorded = get_field-redact_fields task_id tasks ∙ ap redacted found ∙ redacted_obj task;
  numbered = redact_fields-Numbered n m task numbered;
}

module _ (now task_id role provider : Text) (thread_id : Option Text) (index limit : Option Json)
    (disk disk' : Disk) (task : Fields) where
  pub Claim-Tracked :
      (n : ℕ) (c : Claim now task_id role provider thread_id index limit disk task disk')
      → c.i ≡ pos n
      → Tracked task_id n c.m disk'
  Claim-Tracked n c e =
      stored-Tracked task_id now n c.m c.ledger (put_field task_id (obj task) c.tasks) task disk'
        c.written (get_field-put_same task_id (obj task) c.tasks)
        (record {
          followups =
              ap (get_field (lit "followups")) (sym c.claimed)
              ∙ claimed-followups now task_id role provider thread_id c.i c.m c.existing
              ∙ ap (λ (z : ℤ). some (int z)) e;
          limit =
              ap (get_field (lit "maxFollowups")) (sym c.claimed)
              ∙ claimed-max_followups now task_id role provider thread_id c.i c.m c.existing;
          within =
              let inside = (check_range-bounds index limit c.range).1 in
              omega (arith, inside, ap pos_part e, ap neg_part e);
        })

  -- The next claim of a tracked task has the next number and the same limit.
  pub Claim-next :
      (n : ℕ) (m : ℤ)
      → Tracked task_id n m disk
      → Claim now task_id role provider thread_id index limit disk task disk'
      → Tracked task_id (suc n) m disk'
  Claim-next n m t c =
      let same = ap (λ (x : Fields × Fields). x.1) (ok-injective (sym (t.reads now) ∙ c.loads)) in
      let existing = ok-injective (
        sym (existing_of-ok (lit "followups") _ t.task t.numbered.followups)
        ∙ ap existing_of (sym t.recorded ∙ ap (get_field task_id) same)
        ∙ c.recorded) in
      let (next, kept) =
        check_claim-number provider thread_id c.i c.m n m t.task
          (not_end (lit "followups") _ t.task t.numbered.followups) t.numbered
          (rw existing c.passes) in
      subst (λ (z : ℤ). Tracked task_id (suc n) z disk') kept (Claim-Tracked (suc n) c next)

  pub Claim-other :
      (tracked : Text) (n : ℕ) (m : ℤ)
      → (task_id == tracked) ≡ false
      → Tracked tracked n m disk
      → Claim now task_id role provider thread_id index limit disk task disk'
      → Tracked tracked n m disk'
  Claim-other tracked n m apart t c =
      let same = ap (λ (x : Fields × Fields). x.1) (ok-injective (sym (t.reads now) ∙ c.loads)) in
      stored-Tracked tracked now n m c.ledger (put_field task_id (obj task) c.tasks) t.task disk'
        c.written
        (get_field-put_other task_id tracked (obj task) c.tasks apart
          ∙ ap (get_field tracked) (sym same)
          ∙ t.recorded)
        t.numbered
