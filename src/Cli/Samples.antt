-- ===== src/Cli/Samples.antt =====
-- A dispatch of one task to Claude, which reports one changed path, as git does.
use durable_threads.Prelude.{
  Text, codes, lit, true, false, none, some, [], ◌∷◌, ◌≡◌, refl, ok, err, pos, first, ok_or, ◌>>=◌,
}
use durable_threads.Errors.{class_name, value_error}
use durable_threads.Json.{int}
use durable_threads.Ledger.Begin.{begin_task}
use durable_threads.Evidence.{WorkerEvidence}
use durable_threads.Evidence.Samples.{evidence, no_pattern}
use durable_threads.Ledger.Samples.{ledger, empty_disk}
use durable_threads.Providers.Run.{finished, undecodable}
use durable_threads.Providers.Samples.{invocations}
use durable_threads.Cli.Args.{
  DispatchArgs, Machine, Attempted, is_caught, worker_target, usage_fields,
}
use durable_threads.Cli.{
  roster_target, target_of, invocation_for, verify, attempt, record_end, record_stop, with_ledger,
  dispatch,
}
use durable_threads.Config.Samples.{rosters, roster, decode}
use durable_threads.Routing.Samples.{routes, auth_route}
use durable_threads.Packets.Samples.{packets}
use durable_threads.Providers.Invocation.{capability_status, provider_status, get_capabilities}
use durable_threads.Cli.Commands.{
  PlanArgs, Plan, plan, resolve, doctor, provider_doctor, verify_result, record_command, ends_main,
  main_code,
}
use durable_threads.Cli.Settled.{IsSettled, dispatch-IsSettled, IsRecorded, dispatch-IsRecorded}
use durable_threads.Cli.Proven.{IsChecked, dispatch-IsChecked}

unfoldable dispatches : Unit {0}
unfolding invocations ledger evidence is_caught worker_target usage_fields roster_target target_of
    invocation_for verify attempt record_end record_stop with_ledger dispatch class_name first
dispatches = tt

abbrev report : Text
report =
    codes
      "Status: complete\nProvider: claude\nChanged paths: src/a.py\nChecks: pytest passed\nRemaining concerns: None known"

abbrev machine : Machine
machine = record {
  now = codes "now";
  later = codes "later";
  read_file = λ path. none;
  decode = λ text. ok none;
  find = λ name. none;
  is_dir = λ path. true;
  process = λ argv cwd timeout. finished (pos 0) report [];
  git = λ cwd arguments. ok (record { return_code = pos 0; stdout = codes "src/a.py\n" });
  fnmatch = no_pattern;
  show_int = λ n. codes "?";
}

abbrev args : DispatchArgs
args = record {
  provider = codes "claude";
  prompt = codes "fix it";
  model = codes "default";
  effort = codes "low";
  session_id = none;
  session_name = none;
  binary = none;
  cwd = codes "/w";
  timeout = pos 60;
  max_output_chars = none;
  ledger = true;
  task_id = some (codes "t1");
  role = codes "worker";
  followup_index = pos 0;
  max_followups = none;
  roster = none;
  worker_name = none;
  verify_evidence = true;
  allowed_path = codes "src/a.py" ∷ [];
  base_ref = none;
}

dispatch-IsSettled_example :
    IsSettled machine
      (codes "t1")
      empty_disk
      (dispatch machine args empty_disk).0
      (dispatch machine args empty_disk).1
dispatch-IsSettled_example = dispatch-IsSettled machine args (codes "t1") empty_disk refl refl

dispatch-IsRecorded_example :
    IsRecorded machine
      (codes "t1")
      empty_disk
      (dispatch machine args empty_disk).0
      (dispatch machine args empty_disk).1
dispatch-IsRecorded_example =
    dispatch-IsRecorded machine args (codes "t1") empty_disk refl refl (λ argv cwd timeout. refl)
      (λ t. refl) (λ cwd argv. refl)

abbrev done : Attempted
done = record {
  result = record {
    provider = codes "claude";
    return_code = pos 0;
    stdout = report;
    stderr = [];
    session_id = none;
    usage = none;
  };
  verified = some (record {
    status = codes "complete";
    provider = some (codes "claude");
    changed_paths = codes "src/a.py" ∷ [];
    checks = codes "pytest passed" ∷ [];
    concerns = codes "None known" ∷ [];
  });
}

is_done : (dispatch machine args empty_disk).0 ≡ ok (pos 0, done)
unfolding dispatches
is_done = refl

dispatch-IsChecked_example :
    (done.result.return_code ≡ pos 0)
    × ((valid : WorkerEvidence) × (done.verified ≡ some valid)
        × (valid.status ≡ lit "complete")
        × IsChecked machine args done valid)
dispatch-IsChecked_example = dispatch-IsChecked machine args empty_disk done is_done refl

abbrev garbled : Machine
garbled = record machine { process = λ argv cwd timeout. undecodable (pos 0) [] [] }

-- An output that is no text is not caught by the handler: the claim stays.
stays_running : (dispatch garbled args empty_disk).0 ≡ err (value_error "UnicodeDecodeError")
unfolding dispatches
stays_running = refl

claim_stays :
    (dispatch garbled args empty_disk).1
    ≡ (begin_task
        (codes "now")
        (codes "t1")
        (codes "worker")
        (codes "claude")
        none
        (some (int (pos 0)))
        (some (int (pos 1)))
        empty_disk).1
unfolding dispatches
claim_stays = refl

-- A number of too many digits in the output is not caught either.
abbrev long_number : Machine
long_number = record machine { decode = λ t. err (value_error "too many digits") }

stays_running_too : (dispatch long_number args empty_disk).0 ≡ err (value_error "too many digits")
unfolding dispatches
stays_running_too = refl

unfoldable plans : Unit {0}
unfolding dispatches rosters routes packets resolve doctor provider_doctor verify_result
    record_command ends_main main_code plan capability_status provider_status get_capabilities
plans = tt

abbrev plan_args : PlanArgs
plan_args = record {
  roster = some (codes "{}");
  objective = codes "Fix the login bug in the auth service";
  allowed_path = [];
  acceptance = codes "tests pass" ∷ [];
  constraint = [];
  worker = [];
  run_id = codes "run-1";
  is_local = false;
}

abbrev src_args : PlanArgs
src_args = record plan_args { allowed_path = codes "src" ∷ [] }

abbrev no_plan : Plan
no_plan = record { roster = roster; route = auth_route; packets = [] }

abbrev planned : Plan
planned = ok_or (plan decode src_args) no_plan

-- A packet for a task on no path is refused, and `main` ends with the code 2.
no_path : main_code (plan decode plan_args >>= λ p. ok (pos 0)) ≡ ok (pos 2)
unfolding plans
no_path = refl

doctor_returns : doctor (λ name. none) ≡ ok (pos 0)
unfolding plans
doctor_returns = refl

nobody_found : provider_doctor (λ name. none) (codes "Grok") ≡ ok (pos 1)
unfolding plans
nobody_found = refl
