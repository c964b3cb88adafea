-- ===== src/Config/Samples.antt =====
-- A roster of three workers.
use durable_threads.Errors.{Res}
use durable_threads.Prelude.{
  arith, ◌≤ℤ◌, Text, codes, lit, ◌==◌, contains, lower, strip, upper, nonblank, starts_with, any,
  traverse, true, false, Option, none, some, [], ◌∷◌, ◌≡◌, refl, ok, pos,
}
use durable_threads.Json.{Json, str, int, obj, arr, end, field, nil, cons, get_field, items_list}
use durable_threads.Regex.{fullmatch}
use durable_threads.Risk.{r1, r3, validate_risk}
use durable_threads.Native.{WorkerConfig}
use durable_threads.Config.{
  provider_id, get_or, text, optional_text, integer, provider_of, execution_class_of, effort_of,
  boolean, object, role_config,
}
use durable_threads.Config.Entries.{
  worker_names, worker_model, worker_config, escalation_step, escalation_of, risk_of, strategy_of,
  strategy, default_escalation,
}
use durable_threads.Config.Roster.{
  Roster, known_schema, are_distinct, worker_list, workers_of, policy_of, head_of, roster_of,
  load_roster,
}
use durable_threads.Config.Whole.{IsRoster, load_roster-IsRoster}

unfoldable pub rosters : Unit {0}
unfolding provider_id get_or text optional_text integer provider_of execution_class_of effort_of
    boolean object role_config worker_names worker_model worker_config escalation_step escalation_of
    risk_of strategy_of strategy known_schema are_distinct worker_list workers_of policy_of head_of
    roster_of load_roster get_field items_list fullmatch validate_risk lit ◌==◌ contains lower strip
    upper nonblank starts_with any traverse
rosters = tt

abbrev pub worker_json : Text → Text → Json
worker_json name role = obj (
    field (codes "name") (str name) (
      field (codes "role") (str role) (
        field (codes "threadTitle") (str name) (
          field (codes "purpose") (str role)
            (field (codes "modelSelector") (str (codes "efficient")) end)))))

abbrev role_json : Text → Json
role_json role = obj (
    field (codes "role") (str role) (
      field (codes "modelSelector") (str (codes "frontier"))
        (field (codes "reasoningEffort") (str (codes "low")) end)))

abbrev roster_json : Json
roster_json = obj (
    field (codes "project") (obj (field (codes "name") (str (codes "loom")) end)) (
      field (codes "defaults")
        (obj (
          field (codes "planner") (role_json (codes "planner"))
            (field (codes "reviewer") (role_json (codes "reviewer")) end)))
        (field (codes "workers")
          (arr (
            cons (worker_json (codes "ada") (codes "implementation")) (
              cons (worker_json (codes "sec") (codes "security-review"))
                (cons (worker_json (codes "doc") (codes "research-docs")) nil))))
          end)))

abbrev pub decode : Text → Res (Option Json)
decode content = ok (some roster_json)

abbrev pub worker : Text → Text → WorkerConfig
worker name role = record {
  name = name;
  role = role;
  provider = codes "codex";
  thread_title = name;
  purpose = role;
  model_selector = codes "efficient";
  reasoning_effort = codes "low";
  execution_class = codes "workhorse";
  thread_id = none;
  max_followups = pos 1;
  is_parallel = false;
}

abbrev pub roster : Roster
unfolding lit
roster = record {
  schema_version = int (pos 1);
  project_name = codes "loom";
  planner = record {
    role = codes "planner";
    provider = codes "codex";
    model_selector = codes "frontier";
    reasoning_effort = codes "low";
    execution_class = codes "decision";
  };
  reviewer = record {
    role = codes "reviewer";
    provider = codes "codex";
    model_selector = codes "frontier";
    reasoning_effort = codes "low";
    execution_class = codes "review";
  };
  strategy = record {
    profile = codes "economy";
    default_risk = r1;
    frontier_review_at = r3;
    sleeping_orchestrator = true;
    escalation = default_escalation;
  };
  workers =
      worker (codes "ada") (codes "implementation")
      ∷ worker (codes "sec") (codes "security-review")
      ∷ worker (codes "doc") (codes "research-docs")
      ∷ [];
  max_parallel_workers = pos 2;
  max_selected_workers = pos 2;
  result_max_chars = pos 2000;
  allow_thread_creation = false;
}

pub is_loaded : load_roster decode (some (codes "{}")) ≡ ok roster
unfolding rosters
is_loaded = refl

load_roster-IsRoster_example : IsRoster roster
load_roster-IsRoster_example = load_roster-IsRoster decode (some (codes "{}")) roster is_loaded

pub selects_two : pos 2 ≤ℤ roster.max_selected_workers
unfolding roster
selects_two = omega arith
