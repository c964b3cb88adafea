-- ===== src/Cli.antt =====
-- `_dispatch` of src/durable_threads/cli.py: one provider call from the command line, with the ledger's
-- record of it. The arguments are those that the parser has read; printing is left out.
pub mod Args
pub mod Commands
pub mod Planned
pub mod Raised
pub mod Caught
pub mod Recorded
pub mod Settled
pub mod Proven
mod Samples
use durable_threads.Cli.Args.{
  Attempted, DispatchArgs, Machine, Target, accepted, either, is_caught, plain_target, same,
  status_of, text_given, usage_json, worker_target,
}
use durable_threads.Prelude.{
  ℕ, Text, lit, codes, ◌==◌, Bool, true, false, not, ◌&&◌, ◌||◌, Option, none, some, List, [], ◌∷◌,
  ◌++◌, ok, err, ◌>>=◌, ◌>>◌, raise_if, or_raise, or_else, if◌then◌else◌, ℤ, pos, ltb_ℤ, eq_ℤ,
  first, is_some,
}
use durable_threads.Errors.{
  Error, Res, class_name, provider_error, evidence_error, ledger_busy_error, ledger_state_error,
  os_error,
}
use durable_threads.Json.{Json, Fields, int, str, obj, end, field}
use durable_threads.Dict.{Dict}
use durable_threads.Contracts.{is_empty}
use durable_threads.Native.{WorkerConfig}
use durable_threads.Config.Roster.{Roster, load_roster}
use durable_threads.Evidence.{WorkerEvidence, validate_evidence}
use durable_threads.Evidence.Git.{GitRun, git_changed_paths}
use durable_threads.Evidence.Report.{parse_worker_result}
use durable_threads.Ledger.{Disk, record_task}
use durable_threads.Ledger.Begin.{begin_task}
use durable_threads.Providers.{ProviderInvocation}
use durable_threads.Providers.Invocation.{build_invocation}
use durable_threads.Providers.Run.{Process, DispatchResult, run_invocation}

module _ (machine : Machine) where
  abbrev pub run_it : ProviderInvocation → Text → ℤ → ℤ → Res DispatchResult
  run_it = run_invocation machine.decode machine.is_dir machine.process

  -- The roster and its worker, where one is asked for.
  unfoldable pub roster_target : DispatchArgs → Res Target
  roster_target args = do
    raise_if (not (is_some args.roster && text_given args.worker_name))
        (provider_error "--roster and --worker-name must be used together")
    let file = machine.read_file (or_else args.roster [])
    roster ← load_roster machine.decode file
    worker ←
        or_raise
          (first (λ (w : WorkerConfig). w.name == or_else args.worker_name []) roster.workers)
          (provider_error "worker not found in roster")
    worker_target args roster worker

  unfoldable pub target_of : DispatchArgs → Res Target
  target_of args = do
    raise_if (not (same args.ledger (text_given args.task_id)))
        (provider_error "--ledger and --task-id must be used together")
    raise_if (args.verify_evidence && is_empty args.allowed_path)
        (evidence_error "--verify-evidence requires at least one --allowed-path")
    if is_some args.roster || text_given args.worker_name
        then roster_target args
        else ok (plain_target args)

  unfoldable pub invocation_for : DispatchArgs → Target → Res ProviderInvocation
  invocation_for args target =
      build_invocation machine.find args.provider args.prompt args.model args.effort
        target.session_id args.session_name args.binary

  -- The evidence, where it is asked for.
  unfoldable pub verify : DispatchArgs → DispatchResult → Res (Option WorkerEvidence)
  verify args result =
      if args.verify_evidence
      then (do
        raise_if (is_empty args.allowed_path)
            (evidence_error "--verify-evidence requires at least one --allowed-path")
        evidence ← parse_worker_result machine.decode result.stdout
        actual ← git_changed_paths (machine.is_dir args.cwd) (machine.git args.cwd) args.base_ref
        verified ← validate_evidence machine.fnmatch evidence args.allowed_path (some actual)
        ok (some verified))
      else ok none

  abbrev pub other_session : Option Text → Option Text → Bool
  other_session (some (c ∷ s)) (some (d ∷ t)) = not ((c ∷ s) == (d ∷ t))
  other_session _ _ = false

  -- From the process to the verified evidence.
  unfoldable pub attempt : DispatchArgs → Target → ProviderInvocation → Res Attempted
  attempt args target invocation = do
    result ← run_it invocation args.cwd args.timeout target.max_output_chars
    raise_if (other_session target.session_id result.session_id)
        (provider_error "provider returned a different session ID; inspect before retry")
    verified ← verify args result
    ok (record { result = result; verified = verified })

  abbrev result_text : Attempted → Text
  result_text a =
      if is_some a.verified && accepted a
      then lit "Provider completed. Evidence was verified."
      else if eq_ℤ a.result.return_code (pos 0)
      then lit "Provider completed. Evidence was not verified."
      else lit "Provider returned exit code " ++ (machine.show_int a.result.return_code ++ lit ".")

  -- The record of an attempt that has ended.
  unfoldable pub record_end :
      DispatchArgs → Target → (task_id : Text) → Attempted → Disk → Res Json × Disk
  record_end args target task_id a =
      record_task machine.later task_id target.role (status_of a) (some args.provider)
        (either a.result.session_id target.session_id) (some (str (result_text a)))
        (usage_json a.result.usage)

  -- The record of a dispatch that an exception has stopped.
  unfoldable pub record_stop :
      DispatchArgs → Target → (task_id : Text) → Error → Disk → Res Json × Disk
  record_stop args target task_id e =
      record_task machine.later task_id target.role (lit "unknown") (some args.provider)
        target.session_id
        (some (str (lit "Dispatch stopped: " ++ (codes (class_name e) ++ lit ".")))) none

  -- The exit code of the command.
  abbrev pub exit_code : Attempted → ℤ
  exit_code a =
      if not (eq_ℤ a.result.return_code (pos 0))
      then a.result.return_code
      else if accepted a
      then pos 0
      else pos 2

  -- What `raise` leaves after the record of the stop; an exception of that record takes its place.
  abbrev pub raised_again : Error → Res Json × Disk → Res (ℤ × Attempted) × Disk
  raised_again e (ok j, disk) = (err e, disk)
  raised_again e (err e', disk) = (err e', disk)

  -- The handler of an exception of the body.
  abbrev pub stopped : DispatchArgs → Target → Text → Error → Disk → Res (ℤ × Attempted) × Disk
  stopped args target task_id e disk =
      if is_caught e then raised_again e (record_stop args target task_id e disk) else (err e, disk)

  abbrev pub recorded :
      DispatchArgs → Target → Text → Attempted → Res Json × Disk → Res (ℤ × Attempted) × Disk
  recorded args target task_id a (ok j, disk) = (ok (exit_code a, a), disk)
  recorded args target task_id a (err e, disk) = stopped args target task_id e disk

  -- The body for a task that was claimed.
  abbrev pub claimed :
      DispatchArgs → Target → Text → Res Attempted → Disk → Res (ℤ × Attempted) × Disk
  claimed args target task_id (err e) disk = stopped args target task_id e disk
  claimed args target task_id (ok a) disk =
      recorded args target task_id a (record_end args target task_id a disk)

  abbrev pub begun :
      DispatchArgs
      → Target
      → Text
      → ProviderInvocation
      → Res Fields × Disk
      → Res (ℤ × Attempted) × Disk
  begun args target task_id invocation (err e, disk) = (err e, disk)
  begun args target task_id invocation (ok task, disk) =
      claimed args target task_id (attempt args target invocation) disk

  unfoldable pub with_ledger :
      DispatchArgs → Target → Text → ProviderInvocation → Disk → Res (ℤ × Attempted) × Disk
  with_ledger args target task_id invocation disk = begun args target task_id invocation (
      begin_task machine.now task_id target.role args.provider target.session_id
        (some (int args.followup_index)) (some (int target.max_followups)) disk)

  abbrev pub no_ledger : Res Attempted → Res (ℤ × Attempted)
  no_ledger (ok a) = ok (exit_code a, a)
  no_ledger (err e) = err e

  abbrev pub prepared : DispatchArgs → Res (Target × ProviderInvocation)
  prepared args = do
    target ← target_of args
    invocation ← invocation_for args target
    ok (target, invocation)

  abbrev pub started :
      DispatchArgs → Res (Target × ProviderInvocation) → Disk → Res (ℤ × Attempted) × Disk
  started args (err e) disk = (err e, disk)
  started args (ok (target, invocation)) disk =
      if args.ledger
      then with_ledger args target (or_else args.task_id []) invocation disk
      else (no_ledger (attempt args target invocation), disk)

  -- `_dispatch`: its exit code, with what it has printed.
  unfoldable pub dispatch : DispatchArgs → Disk → Res (ℤ × Attempted) × Disk
  dispatch args disk = started args (prepared args) disk
