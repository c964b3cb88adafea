-- ===== src/Config/Entries.antt =====
-- src/durable_threads/config.py: the workers and the strategy of a roster.
use durable_threads.Prelude.{
  Text, lit, contains, Bool, true, false, not, Option, List, [], ◌∷◌, ok, err, ◌>>=◌, ◌>>◌,
  raise_if, pos, ltb_ℤ, traverse,
}
use durable_threads.Errors.{Res, config_error, type_error}
use durable_threads.Risk.{Risk, r1, r3, validate_risk}
use durable_threads.Json.{Json, Fields, null, bool, int, str, arr, obj, end, field, items_list}
use durable_threads.Native.{WorkerConfig}
use durable_threads.Config.{
  text, optional_text, integer, provider_of, execution_class_of, effort_of, boolean, object, get_or,
  profiles, efforts,
}

-- The four texts that name a worker.
pub record WorkerNames : Type 0 where
  pub name : Text
  pub role : Text
  pub provider : Text
  pub thread_title : Text

unfoldable pub worker_names : Fields → Res WorkerNames
worker_names fs = do
  name ← text (get_or (lit "name") null fs)
  role ← text (get_or (lit "role") null fs)
  provider ← provider_of (get_or (lit "provider") (str (lit "codex")) fs)
  thread_title ← text (get_or (lit "threadTitle") null fs)
  ok (record { name = name; role = role; provider = provider; thread_title = thread_title })

-- The texts that say how a worker runs. The effort is compared after the last text is read.
pub record WorkerModel : Type 0 where
  pub purpose : Text
  pub model_selector : Text
  pub reasoning_effort : Text
  pub thread_id : Option Text

unfoldable pub worker_model : Fields → Res WorkerModel
worker_model fs = do
  purpose ← text (get_or (lit "purpose") null fs)
  selector ← text (get_or (lit "modelSelector") null fs)
  effort ← text (get_or (lit "reasoningEffort") (str (lit "low")) fs)
  thread_id ← optional_text (get_or (lit "threadId") null fs)
  raise_if (not (contains effort efforts)) (config_error "reasoningEffort is not supported")
  ok (record {
    purpose = purpose;
    model_selector = selector;
    reasoning_effort = effort;
    thread_id = thread_id;
  })

-- `WorkerConfig.from_dict`. Its test of missing values is left out: `_text` has raised before it.
unfoldable pub worker_config : Json → Res WorkerConfig
worker_config v = do
  fs ← object v
  names ← worker_names fs
  model ← worker_model fs
  execution_class ← execution_class_of (lit "workhorse") (get_or (lit "executionClass") null fs)
  max_followups ← integer (pos 0) (get_or (lit "maxFollowups") (int (pos 1)) fs)
  raise_if (ltb_ℤ (pos 3) max_followups) (config_error "maxFollowups must be <= 3")
  parallel ← boolean (get_or (lit "parallel") (bool false) fs)
  ok (record {
    name = names.name;
    role = names.role;
    provider = names.provider;
    thread_title = names.thread_title;
    purpose = model.purpose;
    model_selector = model.model_selector;
    reasoning_effort = model.reasoning_effort;
    execution_class = execution_class;
    thread_id = model.thread_id;
    max_followups = max_followups;
    is_parallel = parallel;
  })

pub record EscalationStep : Type 0 where
  pub model_selector : Text
  pub reasoning_effort : Text

-- `EscalationStep.from_dict`.
unfoldable pub escalation_step : Json → Res EscalationStep
escalation_step v = do
  fs ← object v
  selector ← text (get_or (lit "modelSelector") null fs)
  effort ← effort_of (get_or (lit "reasoningEffort") null fs)
  ok (record { model_selector = selector; reasoning_effort = effort })

pub record StrategyConfig : Type 0 where
  pub profile : Text
  pub default_risk : Risk
  pub frontier_review_at : Risk
  pub sleeping_orchestrator : Bool
  pub escalation : List EscalationStep

abbrev pub default_escalation : List EscalationStep
default_escalation =
    record { model_selector = lit "efficient"; reasoning_effort = lit "xhigh" }
    ∷ record { model_selector = lit "balanced"; reasoning_effort = lit "medium" }
    ∷ record { model_selector = lit "frontier"; reasoning_effort = lit "low" }
    ∷ record { model_selector = lit "frontier"; reasoning_effort = lit "medium" }
    ∷ []

-- `tuple(from_dict(item) for item in raw)`. A dictionary and a text are iterated too: their keys and
-- characters are texts, which are no objects.
unfoldable pub escalation_of : Json → Res (List EscalationStep)
escalation_of null = ok default_escalation
escalation_of (arr vs) = traverse escalation_step (items_list vs)
escalation_of (obj end) = ok []
escalation_of (obj (field k v fs)) = err (config_error "must be an object")
escalation_of (str []) = ok []
escalation_of (str (c ∷ t)) = err (config_error "must be an object")
escalation_of v = err (type_error "object is not iterable")

-- `validate_risk(str(value))` with its `ValueError` turned into a `ConfigError`. `str` of a value that
-- is no text is no class.
unfoldable pub risk_of : Json → Res Risk
risk_of (str t) = elim (validate_risk t) [
  | ok r ↦ ok r
  | err e ↦ err (config_error "risk must be one of")
]
risk_of v = err (config_error "risk must be one of")

abbrev pub no_steps : List EscalationStep → Bool
no_steps [] = true
no_steps (s ∷ ss) = false

unfoldable pub strategy_of : Fields → Res StrategyConfig
strategy_of fs = do
  profile ← text (get_or (lit "profile") (str (lit "economy")) fs)
  raise_if (not (contains profile profiles)) (config_error "strategy.profile must be one of")
  default_risk ← risk_of (get_or (lit "defaultRisk") (str (lit "R1")) fs)
  frontier_review_at ← risk_of (get_or (lit "frontierReviewAt") (str (lit "R3")) fs)
  sleeping ← boolean (get_or (lit "sleepingOrchestrator") (bool true) fs)
  escalation ← escalation_of (get_or (lit "escalation") null fs)
  raise_if (no_steps escalation) (config_error "strategy.escalation must not be empty")
  ok (record {
    profile = profile;
    default_risk = default_risk;
    frontier_review_at = frontier_review_at;
    sleeping_orchestrator = sleeping;
    escalation = escalation;
  })

-- `_strategy`.
unfoldable pub strategy : Json → Res StrategyConfig
strategy null = ok (record {
  profile = lit "economy";
  default_risk = r1;
  frontier_review_at = r3;
  sleeping_orchestrator = true;
  escalation = default_escalation;
})
strategy v = do fs ← object v; strategy_of fs
