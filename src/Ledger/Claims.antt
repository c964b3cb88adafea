-- ===== src/Ledger/Claims.antt =====
-- One claim of a task by `begin_task` of src/durable_threads/ledger.py, taken apart.
use durable_threads.Prelude.{
  Text, lit, ◌==◌, false, Option, none, some, [], ◌∷◌, ℤ, ◌≡◌, refl, arith, ok, err, >>=-eq-ok,
  ok-injective, Bool-cases, ap, ◌∙◌, sym, inl, inr,
}
use durable_threads.Errors.{Error, Res}
use durable_threads.Json.{Json, Fields, int, str, obj, get_field, put_field}
use durable_threads.Ledger.{put_nonempty, release, Disk, read, save, locked}
use durable_threads.Ledger.Begin.{
  begin_task, begin_body, check_claim, claimed_task, check_range, existing_of,
}
use durable_threads.Ledger.Storage.{get_field-put_same, get_field-put_other}

-- A call of `begin_task` that raises leaves the disk as it was, its lock file included.
pub begin_task_raises :
    (now task_id role provider : Text) (thread_id : Option Text) (index limit : Option Json)
    (disk : Disk) (e : Error)
    → (begin_task now task_id role provider thread_id index limit disk).0 ≡ err e
    → (begin_task now task_id role provider thread_id index limit disk).1 ≡ disk
unfolding begin_task locked
begin_task_raises now task_id role provider thread_id index limit disk e h = ground arith

pub get_field-put_nonempty :
    (k j : Text) (value : Option Text) (fs : Fields)
    → (k == j) ≡ false
    → get_field j (put_nonempty k value fs) ≡ get_field j fs
get_field-put_nonempty k j none fs h = refl
get_field-put_nonempty k j (some []) fs h = refl
get_field-put_nonempty k j (some (c ∷ t)) fs h = get_field-put_other k j _ fs h

module _ (now task_id role provider : Text) (thread_id : Option Text) (i m : ℤ) (fs : Fields) where
  abbrev claimed_fields : Fields
  claimed_fields = claimed_task now task_id role provider thread_id i m fs

  pub claimed-status : get_field (lit "status") claimed_fields ≡ some (str (lit "running"))
  unfolding claimed_task
  claimed-status =
      get_field-put_nonempty (lit "threadId") (lit "status") thread_id _ (unfold lit ◌==◌ in refl)
      ∙ get_field-put_other (lit "updatedAt") (lit "status") _ _ (unfold lit ◌==◌ in refl)
      ∙ get_field-put_other (lit "maxFollowups") (lit "status") _ _ (unfold lit ◌==◌ in refl)
      ∙ get_field-put_other (lit "followups") (lit "status") _ _ (unfold lit ◌==◌ in refl)
      ∙ get_field-put_same (lit "status") _ _

  pub claimed-followups : get_field (lit "followups") claimed_fields ≡ some (int i)
  unfolding claimed_task
  claimed-followups =
      get_field-put_nonempty (lit "threadId") (lit "followups") thread_id _
        (unfold lit ◌==◌ in refl)
      ∙ get_field-put_other (lit "updatedAt") (lit "followups") _ _ (unfold lit ◌==◌ in refl)
      ∙ get_field-put_other (lit "maxFollowups") (lit "followups") _ _ (unfold lit ◌==◌ in refl)
      ∙ get_field-put_same (lit "followups") _ _

  pub claimed-max_followups : get_field (lit "maxFollowups") claimed_fields ≡ some (int m)
  unfolding claimed_task
  claimed-max_followups =
      get_field-put_nonempty (lit "threadId") (lit "maxFollowups") thread_id _
        (unfold lit ◌==◌ in refl)
      ∙ get_field-put_other (lit "updatedAt") (lit "maxFollowups") _ _ (unfold lit ◌==◌ in refl)
      ∙ get_field-put_same (lit "maxFollowups") _ _

-- A successful claim, with the parts it went through.
pub record Claim (now task_id role provider : Text) (thread_id : Option Text)
    (index limit : Option Json) (disk : Disk) (task : Fields) (disk' : Disk) : Type 0 where
  pub i : ℤ
  pub m : ℤ
  pub range : check_range index limit ≡ ok (i, m)
  pub ledger : Fields
  pub tasks : Fields
  pub loads : read now disk.file ≡ ok (ledger, tasks)
  pub existing : Fields
  pub recorded : existing_of (get_field task_id tasks) ≡ ok existing
  pub passes : check_claim provider thread_id i m existing ≡ ok tt
  pub claimed : claimed_task now task_id role provider thread_id i m existing ≡ task
  pub written :
      disk'.file
      ≡ some (save now (put_field (lit "tasks") (obj (put_field task_id (obj task) tasks)) ledger))
  pub unlocked : disk'.lock ≡ false
  pub free : disk.lock ≡ false

pub released {ℓ} :
    {A : Type ℓ} (r : Res (A × Json)) (disk disk' : Disk) (a : A)
    → release disk r ≡ (ok a, disk')
    → (json : Json) × (r ≡ ok (a, json)) × (disk'.file ≡ some json) × (disk'.lock ≡ false)
released (ok (b, json)) disk disk' a h = (json, cc, cc, cc)
released (err e) disk disk' a h = absurd cc

pub locked-ok {ℓ} :
    {A : Type ℓ} (method : Option Json → Res (A × Json)) (disk disk' : Disk) (a : A)
    → locked method disk ≡ (ok a, disk')
    → (json : Json) × (method disk.file ≡ ok (a, json))
      × (disk'.file ≡ some json)
      × (disk'.lock ≡ false)
      × (disk.lock ≡ false)
unfolding locked
locked-ok method disk disk' a h = elim (Bool-cases disk.lock) [
  | inl busy ↦ let raises = simp busy at h in absurd cc
  | inr free ↦
      let (json, body, file, unlocked) = released _ disk disk' a (simp free at h) in
      (json, body, file, unlocked, free)
]

module _ (now task_id role provider : Text) (thread_id : Option Text)
    (index limit : Option Json) where
  pub begin_task-Claim :
      (disk disk' : Disk) (task : Fields)
      → begin_task now task_id role provider thread_id index limit disk ≡ (ok task, disk')
      → Claim now task_id role provider thread_id index limit disk task disk'
  unfolding begin_task begin_body
  begin_task-Claim disk disk' task h =
      let (json, body, file, unlocked, free) = locked-ok _ disk disk' task h in
      let ((i, m), range, h₁) = >>=-eq-ok (check_range index limit) _ body in
      let ((ledger, tasks), loads, h₂) = >>=-eq-ok (read now disk.file) _ h₁ in
      let (existing, recorded, h₃) = >>=-eq-ok (existing_of (get_field task_id tasks)) _ h₂ in
      let (_, passes, h₄) = >>=-eq-ok (check_claim provider thread_id i m existing) _ h₃ in
      let same = ok-injective h₄ in
      let claimed = ap (λ (x : Fields × Json). x.0) same in
      record {
        i = i;
        m = m;
        range = range;
        ledger = ledger;
        tasks = tasks;
        loads = loads;
        existing = existing;
        recorded = recorded;
        passes = passes;
        claimed = claimed;
        written =
            file
            ∙ sym (ap (λ (x : Fields × Json). some x.1) same)
            ∙ ap
                (λ (x : Fields). some (
                  save now
                    (put_field (lit "tasks") (obj (put_field task_id (obj x) tasks)) ledger)))
                claimed;
        unlocked = unlocked;
        free = free;
      }
