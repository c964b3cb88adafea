-- ===== src/Cli/Args.antt =====
-- What `_dispatch` of src/durable_threads/cli.py starts from and comes to: the arguments that the parser
-- has read, what it reaches, its target, and the status of an attempt.
use durable_threads.Prelude.{
  Text, lit, ◌==◌, Bool, true, false, not, ◌&&◌, Option, none, some, List, [], ◌∷◌, ok, ◌>>◌,
  raise_if, or_else, if◌then◌else◌, ℤ, pos, ltb_ℤ, eq_ℤ, is_some,
}
use durable_threads.Errors.{
  Error, Res, provider_error, evidence_error, ledger_busy_error, ledger_state_error, os_error,
}
use durable_threads.Json.{Json, Fields, int, obj, end, field}
use durable_threads.Dict.{Dict}
use durable_threads.Native.{WorkerConfig}
use durable_threads.Config.Roster.{Roster}
use durable_threads.Evidence.{WorkerEvidence}
use durable_threads.Evidence.Git.{GitRun}
use durable_threads.Providers.Run.{Process, DispatchResult}

pub record DispatchArgs : Type 0 where
  pub provider : Text
  pub prompt : Text
  pub model : Text
  pub effort : Text
  pub session_id : Option Text
  pub session_name : Option Text
  pub binary : Option Text
  pub cwd : Text
  pub timeout : ℤ
  pub max_output_chars : Option ℤ
  pub ledger : Bool
  pub task_id : Option Text
  pub role : Text
  pub followup_index : ℤ
  pub max_followups : Option ℤ
  pub roster : Option Text
  pub worker_name : Option Text
  pub verify_evidence : Bool
  pub allowed_path : List Text
  pub base_ref : Option Text

-- What the command reaches: the two times that the ledger notes, files, processes and git.
pub record Machine : Type 0 where
  pub now : Text
  pub later : Text
  pub read_file : Text → Option Text
  pub decode : Text → Res (Option Json)
  pub find : Text → Option Text
  pub is_dir : Text → Bool
  pub process : List Text → Text → ℤ → Process
  pub git : Text → List Text → Res GitRun
  pub fnmatch : Text → Text → Bool
  pub show_int : ℤ → Text

abbrev pub text_given : Option Text → Bool
text_given none = false
text_given (some []) = false
text_given (some (c ∷ t)) = true

abbrev pub either : Option Text → Option Text → Option Text
either (some (c ∷ t)) other = some (c ∷ t)
either (some []) other = other
either none other = other

abbrev pub same : Bool → Bool → Bool
same true b = b
same false b = not b

abbrev min_ℤ : ℤ → ℤ → ℤ
min_ℤ a b = if ltb_ℤ b a then b else a

-- The limits and the session that a dispatch runs with.
pub record Target : Type 0 where
  pub role : Text
  pub session_id : Option Text
  pub max_followups : ℤ
  pub max_output_chars : ℤ

-- Without a roster.
abbrev pub plain_target : DispatchArgs → Target
plain_target args = record {
  role = args.role;
  session_id = args.session_id;
  max_followups = or_else args.max_followups (pos 1);
  max_output_chars = or_else args.max_output_chars (pos 2000);
}

abbrev worker_followups : Option ℤ → ℤ → ℤ
worker_followups none limit = limit
worker_followups (some n) limit = min_ℤ n limit

-- For a worker of a roster.
unfoldable pub worker_target : DispatchArgs → Roster → WorkerConfig → Res Target
worker_target args roster worker = do
  raise_if (not (worker.provider == args.provider)) (provider_error "worker belongs to provider")
  ok (record {
    role = worker.role;
    session_id = either args.session_id worker.thread_id;
    max_followups = worker_followups args.max_followups worker.max_followups;
    max_output_chars = min_ℤ (or_else args.max_output_chars (pos 2000)) roster.result_max_chars;
  })

-- The usage counters as JSON.
unfoldable pub usage_fields : Dict ℤ → Fields
usage_fields [] = end
usage_fields ((key, n) ∷ rest) = field key (int n) (usage_fields rest)

abbrev pub usage_json : Option (Dict ℤ) → Option Json
usage_json none = none
usage_json (some d) = some (obj (usage_fields d))

-- A process that was run and what was verified of it.
pub record Attempted : Type 0 where
  pub result : DispatchResult
  pub verified : Option WorkerEvidence

abbrev pub evidence_accepted : Option WorkerEvidence → Bool
evidence_accepted none = true
evidence_accepted (some e) = e.status == lit "complete"

abbrev pub accepted : Attempted → Bool
accepted a = eq_ℤ a.result.return_code (pos 0) && evidence_accepted a.verified

abbrev pub status_of : Attempted → Text
status_of a =
    if accepted a && is_some a.verified
    then lit "complete"
    else if accepted a
    then lit "unverified"
    else lit "blocked"

-- `except (EvidenceError, LedgerBusyError, LedgerStateError, OSError, ProviderError)`.
unfoldable pub is_caught : Error → Bool
is_caught (evidence_error m) = true
is_caught (ledger_busy_error m) = true
is_caught (ledger_state_error m) = true
is_caught (os_error m) = true
is_caught (provider_error m) = true
is_caught e = false
