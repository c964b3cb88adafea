-- ===== src/Activities/Samples.antt =====
-- A task from its assessment to its verified result: the heuristic engine, one executor, and a working
-- tree that agrees with the executor's report.
use durable_threads.Prelude.{
  ◌≤◌, length, Text, codes, contains, join, true, false, none, some, List, [], ◌∷◌, ◌≡◌, refl, ok,
  pos, if◌then◌else◌, Memb,
}
use durable_threads.Errors.{is_value_error, class_name, Res}
use durable_threads.Dict.{Dict}
use durable_threads.Risk.Samples.{classifier}
use durable_threads.Intelligence.{TaskAssessment}
use durable_threads.Intelligence.Samples.{engine, assessments}
use durable_threads.Contracts.{AttemptResult, TaskRunResult, complete}
use durable_threads.Session.{Session, Reply, returned}
use durable_threads.Workflow.{run}
use durable_threads.Workflow.Samples.{workflow, task, session, result_of, blank}
use durable_threads.Registry.{ExecutorDescriptor, ExecutorPlugin, backend}
use durable_threads.Registry.Samples.{registry}
use durable_threads.Evidence.Git.{GitRun}
use durable_threads.Evidence.Samples.{evidence}
use durable_threads.Activities.{
  World, Backend, assess_task_activity, route_count, route_requirements, route_executors_activity,
  runtime_prompt, run_execution_activity, verified_report, verify_execution_activity,
  assess_result_activity, worker_activities,
}
use durable_threads.Activities.Routes.{route_executors_activity_single}
use durable_threads.Contracts.{RouteExecutorsInput}
use durable_threads.Workflow.Samples.{assessment}
use durable_threads.Activities.Verified.{IsProven, run-IsProven}

unfoldable worker : Unit {0}
unfolding workflow registry evidence assessments classifier assess_task_activity route_count
    route_requirements route_executors_activity runtime_prompt run_execution_activity
    verified_report verify_execution_activity assess_result_activity worker_activities backend
    is_value_error class_name join
worker = tt

abbrev descriptor : ExecutorDescriptor
descriptor = record {
  executor_id = codes "codex";
  provider = codes "codex";
  runtime = codes "cli";
  capabilities = codes "code" ∷ codes "git" ∷ [];
  persistent_sessions = true;
  headless = true;
  structured_output = true;
  supports_effort = true;
  metadata = [];
}

abbrev reports : Backend
reports request = ok (record {
  provider = request.provider;
  return_code = pos 0;
  stdout =
      codes
        "Status: complete\nProvider: codex\nChanged paths: src/a.py\nChecks: pytest passed\nRemaining concerns: None known";
  stderr = [];
  session_id = none;
  usage = none;
})

abbrev plugins : Dict (ExecutorPlugin Backend)
plugins =
    (
      codes "codex",
      record { descriptor = descriptor; backend_factory = some reports; availability_probe = none },
    )
    ∷ []

abbrev changes : List Text → Res GitRun
changes args = ok (record {
  return_code = pos 0;
  stdout = if contains (codes "--cached") args then [] else codes "src/a.py\n";
})

abbrev world : World
world = record {
  engine = engine;
  plugins = λ index. plugins;
  plugins_at = λ request. plugins;
  decode = λ t. ok none;
  fnmatch = λ path pattern. false;
  is_dir = λ request path. true;
  git = λ request cwd. changes;
  show_int = λ z. codes "1";
  child_failure = λ e. (codes "ChildWorkflowError", codes "failed");
}

abbrev whole_run : Reply TaskRunResult × Session
whole_run = run (worker_activities world) task (session [])

finished : TaskRunResult
finished = result_of whole_run blank

finished_complete : finished.status ≡ complete
unfolding finished worker
finished_complete = refl

finished_returned : whole_run ≡ (returned finished, whole_run.1)
unfolding finished worker
finished_returned = refl

run-IsProven_example :
    (a : TaskAssessment) × (assess_task_activity world task ≡ ok a)
    × (best : AttemptResult) × Memb best finished.attempts
    × (finished.selected_provider ≡ some best.provider)
    × IsProven world task a best
run-IsProven_example =
    run-IsProven world task (session []) whole_run.1 finished finished_returned finished_complete

abbrev writing : RouteExecutorsInput
writing = record {
  task = record task { required_capabilities = codes "git" ∷ [] };
  assessment = record (assessment false false) { execution_shape = codes "parallel_workers" };
  excluded_providers = [];
  preferred_providers = [];
}

one_route : route_executors_activity world 1 writing ≡ ok (codes "codex" ∷ [])
unfolding worker
one_route = refl

route_executors_activity_single_example : length (codes "codex" ∷ []) ≤ 1
unfolding worker
route_executors_activity_single_example =
    route_executors_activity_single world 1 writing (codes "codex" ∷ []) refl one_route
