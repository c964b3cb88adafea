-- ===== src/Cli/Commands.antt =====
-- The other commands of src/durable_threads/cli.py, and `main`. What a command prints is its value
-- beside the exit code.
use durable_threads.Prelude.{
  Text, lit, ◌==◌, Bool, true, Option, none, some, List, [], ◌∷◌, ok, err, ◌>>=◌, or_raise,
  if◌then◌else◌, ℤ, pos, all, first, is_some, traverse,
}
use durable_threads.Errors.{
  Error, Res, is_value_error, os_error, ledger_busy_error, value_error, runtime_error,
}
use durable_threads.Json.{Json, null}
use durable_threads.Native.{WorkerConfig}
use durable_threads.Config.Roster.{Roster, load_roster}
use durable_threads.Routing.{RouteDecision, select_workers}
use durable_threads.Routing.Catalog.{catalog_from_payload}
use durable_threads.Models.{Resolution, resolve_model}
use durable_threads.Packets.{DelegationPacket, PacketItems, build_packet}
use durable_threads.Evidence.{WorkerEvidence, validate_evidence}
use durable_threads.Evidence.Git.{GitRun, git_changed_paths}
use durable_threads.Evidence.Report.{parse_worker_result}
use durable_threads.Ledger.{Disk, record_task}
use durable_threads.Providers.Invocation.{ProviderStatus, provider_status}

pub record PlanArgs : Type 0 where
  pub roster : Option Text
  pub objective : Text
  pub allowed_path : List Text
  pub acceptance : List Text
  pub constraint : List Text
  pub worker : List Text
  pub run_id : Text
  pub is_local : Bool

pub record Plan : Type 0 where
  pub roster : Roster
  pub route : RouteDecision
  pub packets : List DelegationPacket

abbrev pub plan_items : PlanArgs → PacketItems
plan_items args = record {
  allowed_paths = args.allowed_path;
  acceptance = args.acceptance;
  constraints = args.constraint;
  decisions = [];
  invariants = [];
  non_goals = [];
}

-- `_plan`. The file of the roster is its content, and the run id is the one given or made up.
unfoldable pub plan : (Text → Res (Option Json)) → PlanArgs → Res Plan
plan decode args = do
  roster ← load_roster decode args.roster
  route ←
      select_workers roster args.objective args.allowed_path args.acceptance args.worker
        args.is_local none
  packets ←
      traverse
        (λ (w : WorkerConfig). build_packet w args.run_id args.objective (plan_items args) none)
        route.selected
  ok (record { roster = roster; route = route; packets = packets })

-- `_resolve`, with the catalog's JSON.
unfoldable pub resolve : (Json → Text) → Json → (selector : Text) → Res (ℤ × Resolution)
resolve show payload selector = do
  models ← catalog_from_payload show payload
  let resolution = resolve_model models selector
  ok (if is_some resolution.model then pos 0 else pos 2, resolution)

module _ (find : Text → Option Text) where
  abbrev codex_code : Option ProviderStatus → Res ℤ
  codex_code none = err (runtime_error "StopIteration")
  codex_code (some s) = ok (if s.available then pos 0 else pos 1)

  -- `_doctor`.
  unfoldable pub doctor : Res ℤ
  doctor = do
    statuses ← provider_status find none
    codex_code (first (λ (s : ProviderStatus). s.capability.provider == lit "codex") statuses)

  -- `_provider_doctor`.
  unfoldable pub provider_doctor : Text → Res ℤ
  provider_doctor provider = do
    statuses ← provider_status find (some provider)
    ok (if all (λ (s : ProviderStatus). s.available) statuses then pos 0 else pos 1)

-- `_verify_result`, with the text of the result.
unfoldable pub verify_result :
    (decode : Text → Res (Option Json)) (fnmatch : Text → Text → Bool) (is_dir : Bool)
    (git : List Text → Res GitRun) (text : Text) (allowed_path : List Text) (base_ref : Option Text)
    → Res (ℤ × WorkerEvidence)
verify_result decode fnmatch is_dir git text allowed_path base_ref = do
  evidence ← parse_worker_result decode text
  actual ← git_changed_paths is_dir git base_ref
  verified ← validate_evidence fnmatch evidence allowed_path (some actual)
  ok (if verified.status == lit "complete" then pos 0 else pos 2, verified)

-- `usage is not None`, of what `json.loads` gave.
abbrev given_usage : Json → Option Json
given_usage null = none
given_usage v = some v

abbrev usage_of : (Text → Res (Option Json)) → Option Text → Res (Option Json)
usage_of decode (some (c ∷ t)) = do
  read ← decode (c ∷ t)
  v ← or_raise read (value_error "JSONDecodeError")
  ok (given_usage v)
usage_of decode other = ok none

abbrev record_with :
    Text
    → (task_id role status : Text) (provider thread_id : Option Text) (result : Option Json)
    → Res (Option Json)
    → Disk
    → Res Json × Disk
record_with now task_id role status provider thread_id result (err e) disk = (err e, disk)
record_with now task_id role status provider thread_id result (ok usage) disk =
    record_task now task_id role status provider thread_id result usage disk

-- `_record`.
unfoldable pub record_command :
    (Text → Res (Option Json))
    → Text
    → (task_id role status : Text) (provider thread_id : Option Text) (result : Option Json)
      (usage : Option Text)
    → Disk
    → Res Json × Disk
record_command decode now task_id role status provider thread_id result usage =
    record_with now task_id role status provider thread_id result (usage_of decode usage)

-- The classes that `main` turns into the exit code 2.
unfoldable pub ends_main : Error → Bool
ends_main (os_error m) = true
ends_main (ledger_busy_error m) = true
ends_main e = is_value_error e

-- `main`, for the value of a handler: its exit code, or the exception that goes on.
unfoldable pub main_code : Res ℤ → Res ℤ
main_code (ok code) = ok code
main_code (err e) = if ends_main e then ok (pos 2) else err e
