-- ===== src/Cli/Settled.antt =====
-- The ledger after `_dispatch` of src/durable_threads/cli.py.
use durable_threads.Prelude.{
  Text, lit, Bool, true, false, ◌&&◌, Option, none, some, List, [], ◌++◌, ℤ, ◌≡◌, refl, ok, err,
  sym, ap, ◌∙◌, subst, is_some, or_else, if◌then◌else◌, codes, Bool-cases, inl, inr,
}
use durable_threads.Errors.{Error, Res, class_name}
use durable_threads.Regex.{sub}
use durable_threads.Json.{Fields, int, str}
use durable_threads.Ledger.{Disk, redact_text, secret}
use durable_threads.Ledger.Begin.{begin_task}
use durable_threads.Ledger.Claims.{begin_task_raises}
use durable_threads.Providers.{ProviderInvocation}
use durable_threads.Cli.Args.{
  DispatchArgs, Machine, Target, Attempted, is_caught, accepted, status_of, either, usage_json,
}
use durable_threads.Cli.{
  exit_code, attempt, record_end, record_stop, stopped, claimed, begun, with_ledger, started,
  prepared, dispatch, no_ledger, result_text,
}
use durable_threads.Cli.Caught.{decodable, attempt-handled}
use durable_threads.Cli.Raised.{handled}
use durable_threads.Cli.Recorded.{
  IsReadable, HasStatus, begin_task-HasStatus, record_task-HasStatus,
}

-- How the ledger stands after a dispatch for a task: as it was, with an exception; or with a record of
-- the task that says how the process ended.
pub data IsRecorded (machine : Machine) (task_id : Text) (before : Disk)
    : Res (ℤ × Attempted) → Disk → Type 0 where
  unclaimed : {e : Error} → IsRecorded machine task_id before (err e) before
  ended :
      {code : ℤ} {a : Attempted} {after : Disk}
      → HasStatus task_id (status_of a) after
      → code ≡ exit_code machine a
      → IsRecorded machine task_id before (ok (code, a)) after
  unknown :
      {e : Error} {after : Disk}
      → is_caught e ≡ true
      → HasStatus task_id (lit "unknown") after
      → IsRecorded machine task_id before (err e) after

-- The same, or with the record of the claim, where an exception has passed the handler.
pub data IsSettled (machine : Machine) (task_id : Text) (before : Disk)
    : Res (ℤ × Attempted) → Disk → Type 0 where
  settled :
      {result : Res (ℤ × Attempted)} {after : Disk}
      → IsRecorded machine task_id before result after
      → IsSettled machine task_id before result after
  left_running :
      {e : Error} {after : Disk}
      → is_caught e ≡ false
      → HasStatus task_id (lit "running") after
      → IsSettled machine task_id before (err e) after

unknown_kept : redact_text (lit "unknown") ≡ lit "unknown"
unfolding redact_text secret sub lit
unknown_kept = refl

status_of-kept : (a : Attempted) → redact_text (status_of a) ≡ status_of a
unfolding redact_text secret sub lit
status_of-kept a = kept (accepted a && is_some a.verified) (accepted a)
  where
    kept :
        (b c : Bool)
        → redact_text (if b then lit "complete" else if c then lit "unverified" else lit "blocked")
          ≡ (if b then lit "complete" else if c then lit "unverified" else lit "blocked")
    kept true c = refl
    kept false true = refl
    kept false false = refl

module _ (machine : Machine) (args : DispatchArgs) (task_id : Text) (before : Disk)
    (target : Target) where
  abbrev Records : Res (ℤ × Attempted) × Disk → Type 0
  Records out = IsRecorded machine task_id before out.0 out.1

  stopped-Records :
      (e : Error) (disk : Disk)
      → IsReadable disk
      → is_caught e ≡ true
      → Records (stopped machine args target task_id e disk)
  unfolding record_stop
  stopped-Records e disk r c =
      let (v, disk', says, has) =
        record_task-HasStatus machine.later task_id target.role (lit "unknown") (some args.provider)
          target.session_id
          (some (str (lit "Dispatch stopped: " ++ (codes (class_name e) ++ lit ".")))) none disk r
          unknown_kept in
      rw c (rw says (unknown c has))

  claimed-Records :
      (reply : Res Attempted) (disk : Disk)
      → HasStatus task_id (lit "running") disk
      → handled reply ≡ true
      → Records (claimed machine args target task_id reply disk)
  unfolding record_end
  claimed-Records (err e) disk h c = stopped-Records e disk h.readable c
  claimed-Records (ok a) disk h c =
      let (v, disk', says, has) =
        record_task-HasStatus machine.later task_id target.role (status_of a) (some args.provider)
          (either a.result.session_id target.session_id) (some (str (result_text machine a)))
          (usage_json a.result.usage) disk h.readable (status_of-kept a) in
      rw says (ended {a = a} has refl)

  abbrev Settles : Res (ℤ × Attempted) × Disk → Type 0
  Settles out = IsSettled machine task_id before out.0 out.1

  claimed-Settles :
      (reply : Res Attempted) (disk : Disk)
      → HasStatus task_id (lit "running") disk
      → Settles (claimed machine args target task_id reply disk)
  claimed-Settles (err e) disk h = elim (Bool-cases (is_caught e)) [
    | inl caught ↦ settled (claimed-Records (err e) disk h caught)
    | inr passes ↦ rw passes (left_running passes h)
  ]
  claimed-Settles (ok a) disk h = settled (claimed-Records (ok a) disk h refl)

module _ (machine : Machine) (args : DispatchArgs) (task_id : Text) (before : Disk)
    (P : Res (ℤ × Attempted) × Disk → Type 0) (refused : (e : Error) → P (err e, before))
    (goes_on : (target : Target) (invocation : ProviderInvocation) (disk : Disk)
      → HasStatus task_id (lit "running") disk
      → P (claimed machine args target task_id (attempt machine args target invocation) disk)) where
  begun-holds :
      (target : Target) (invocation : ProviderInvocation) (reply : Res Fields × Disk)
      → begin_task machine.now task_id target.role args.provider target.session_id
          (some (int args.followup_index))
          (some (int target.max_followups))
          before
        ≡ reply
      → P (begun machine args target task_id invocation reply)
  begun-holds target invocation (err e, disk) h =
      let same =
        begin_task_raises machine.now task_id target.role args.provider target.session_id
          (some (int args.followup_index)) (some (int target.max_followups)) before e
          (ap (λ (x : Res Fields × Disk). x.0) h) in
      subst (λ (x : Disk). P (err e, x)) (sym same ∙ ap (λ (x : Res Fields × Disk). x.1) h)
        (refused e)
  begun-holds target invocation (ok task, disk) h = goes_on target invocation disk (
      begin_task-HasStatus machine.now task_id target.role args.provider target.session_id
        (some (int args.followup_index)) (some (int target.max_followups)) before disk task h)

  -- What holds of a refused claim and of what follows a claim holds of a dispatch.
  dispatch-holds :
      args.ledger ≡ true → args.task_id ≡ some task_id → P (dispatch machine args before)
  unfolding dispatch
  dispatch-holds l t = each (prepared machine args)
    where
      each : (r : Res (Target × ProviderInvocation)) → P (started machine args r before)
      each (err e) = refused e
      each (ok (target, invocation)) =
          subst
            (λ b. P (
              if b
              then with_ledger machine args target (or_else args.task_id []) invocation before
              else (no_ledger machine (attempt machine args target invocation), before)))
            (sym l)
            (subst
              (λ (o : Option Text).
                P (with_ledger machine args target (or_else o []) invocation before))
              (sym t) (unfold with_ledger in begun-holds target invocation _ refl))

-- For a dispatch with a ledger, one of four. It raises and leaves the disk as it was. Or the ledger
-- can be read and has no lock, and its record of the task has the status unknown, and the dispatch
-- raises an exception of a class that its handler catches; or that status is complete, unverified or
-- blocked as the attempt that the dispatch returns is, and the exit code is that of this attempt; or
-- the status is still running, and the dispatch raises an exception of another class.
pub dispatch-IsSettled :
    (machine : Machine) (args : DispatchArgs) (task_id : Text) (before : Disk)
    → args.ledger ≡ true
    → args.task_id ≡ some task_id
    → IsSettled machine task_id before
        (dispatch machine args before).0
        (dispatch machine args before).1
dispatch-IsSettled machine args task_id before =
    dispatch-holds machine args task_id before (λ out. IsSettled machine task_id before out.0 out.1)
      (λ e. settled unclaimed)
      (λ target invocation. claimed-Settles machine args task_id before target _)

-- For a dispatch with a ledger, where every output of a provider process is text, and json.loads and
-- the runs of git return or raise exceptions of classes that the handler catches, the record is never
-- left at running: the dispatch raises and leaves the disk as it was, or the ledger can be read and has
-- no lock, and its record of the task has the status unknown, and the dispatch raises, or complete,
-- unverified or blocked as the attempt that it returns is, and the exit code is that of this attempt.
pub dispatch-IsRecorded :
    (machine : Machine) (args : DispatchArgs) (task_id : Text) (before : Disk)
    → args.ledger ≡ true
    → args.task_id ≡ some task_id
    → ((argv : List Text) (cwd : Text) (timeout : ℤ)
        → decodable (machine.process argv cwd timeout) ≡ true)
    → ((t : Text) → handled (machine.decode t) ≡ true)
    → ((cwd : Text) (argv : List Text) → handled (machine.git cwd argv) ≡ true)
    → IsRecorded machine task_id before
        (dispatch machine args before).0
        (dispatch machine args before).1
dispatch-IsRecorded machine args task_id before l t texts loads runs =
    dispatch-holds machine args task_id before
      (λ out. IsRecorded machine task_id before out.0 out.1) (λ e. unclaimed)
      (λ target invocation disk h. claimed-Records machine args task_id before target _ disk h (
        attempt-handled machine loads runs args target invocation
          (texts invocation.argv args.cwd args.timeout)))
      l t
