-- ===== src/Config/Roster.antt =====
-- src/durable_threads/config.py: `load_roster`. `decode` is `json.loads`, none where it raises
-- `JSONDecodeError`, and what else it raises is raised on; a file that is not there is none.
use durable_threads.Prelude.{
  ℕ, Text, lit, contains, Bool, true, false, not, ◌&&◌, ◌||◌, Option, List, [], ◌∷◌, ok, err, ◌>>=◌,
  ◌>>◌, raise_if, if◌then◌else◌, ℤ, pos, ltb_ℤ, eq_ℤ, traverse, map, length, leb, or_raise,
}
use durable_threads.Errors.{Res, config_error, type_error}
use durable_threads.Json.{
  Json, Fields, null, bool, int, float, arr, obj, nil, cons, end, items_list,
}
use durable_threads.Native.{WorkerConfig}
use durable_threads.Config.{text, integer, boolean, object, get_or, RoleConfig, role_config}
use durable_threads.Config.Entries.{worker_config, StrategyConfig, strategy}

pub record Roster : Type 0 where
  pub schema_version : Json
  pub project_name : Text
  pub planner : RoleConfig
  pub reviewer : RoleConfig
  pub strategy : StrategyConfig
  pub workers : List WorkerConfig
  pub max_parallel_workers : ℤ
  pub max_selected_workers : ℤ
  pub result_max_chars : ℤ
  pub allow_thread_creation : Bool

-- `value in {1, 2}`: Python's equality of numbers counts `True` and floats, and lists and
-- dictionaries have no hash.
unfoldable pub known_schema : Json → Res Bool
known_schema (int z) = ok (eq_ℤ z (pos 1) || eq_ℤ z (pos 2))
known_schema (float z) = ok (eq_ℤ z (pos 1000) || eq_ℤ z (pos 2000))
known_schema (bool b) = ok b
known_schema (arr vs) = err (type_error "unhashable type")
known_schema (obj fs) = err (type_error "unhashable type")
known_schema v = ok false

-- `len(set(texts)) == len(texts)`.
unfoldable pub are_distinct : List Text → Bool
are_distinct [] = true
are_distinct (t ∷ ts) = not (contains t ts) && are_distinct ts

unfoldable pub worker_list : Json → Res (List Json)
worker_list (arr nil) = err (config_error "workers must be a non-empty array")
worker_list (arr (cons v vs)) = ok (v ∷ items_list vs)
worker_list v = err (config_error "workers must be a non-empty array")

unfoldable pub workers_of : Json → Res (List WorkerConfig)
workers_of v = do
  raw ← worker_list v
  workers ← traverse worker_config raw
  raise_if (not (are_distinct (map (λ (w : WorkerConfig). w.name) workers)))
      (config_error "worker names must be unique")
  raise_if (not (are_distinct (map (λ (w : WorkerConfig). w.thread_title) workers)))
      (config_error "worker threadTitle values must be unique")
  ok workers

-- The four values of `policy`.
pub record Policy : Type 0 where
  pub max_parallel : ℤ
  pub max_selected : ℤ
  pub result_max_chars : ℤ
  pub allow_creation : Bool

abbrev pub two_or_less : ℕ → ℕ
two_or_less n = if leb n 2 then n else 2

unfoldable pub policy_of : ℕ → Fields → Res Policy
policy_of count fs = do
  max_parallel ← integer (pos 1) (get_or (lit "maxParallelWorkers") (int (pos 2)) fs)
  max_selected ←
      integer (pos 1) (get_or (lit "maxSelectedWorkers") (int (pos (two_or_less count))) fs)
  raise_if (ltb_ℤ (pos count) max_selected)
      (config_error "policy.maxSelectedWorkers cannot exceed the worker count")
  result_max_chars ← integer (pos 200) (get_or (lit "resultMaxChars") (int (pos 2000)) fs)
  allow_creation ← boolean (get_or (lit "allowThreadCreation") (bool false) fs)
  ok (record {
    max_parallel = max_parallel;
    max_selected = max_selected;
    result_max_chars = result_max_chars;
    allow_creation = allow_creation;
  })

-- The project's name and the two roles.
pub record Head : Type 0 where
  pub schema_version : Json
  pub project_name : Text
  pub planner : RoleConfig
  pub reviewer : RoleConfig

unfoldable pub head_of : Fields → Res Head
head_of fs = do
  let schema_version = get_or (lit "schemaVersion") (int (pos 1)) fs
  known ← known_schema schema_version
  raise_if (not known) (config_error "schemaVersion must be 1 or 2")
  project ← object (get_or (lit "project") null fs)
  project_name ← text (get_or (lit "name") null project)
  defaults ← object (get_or (lit "defaults") null fs)
  planner ← role_config (lit "decision") (get_or (lit "planner") null defaults)
  reviewer ← role_config (lit "review") (get_or (lit "reviewer") null defaults)
  ok (record {
    schema_version = schema_version;
    project_name = project_name;
    planner = planner;
    reviewer = reviewer;
  })

unfoldable pub roster_of : Json → Res Roster
roster_of v = do
  fs ← object v
  head ← head_of fs
  strategy ← strategy (get_or (lit "strategy") null fs)
  workers ← workers_of (get_or (lit "workers") null fs)
  policy_fields ← object (get_or (lit "policy") (obj end) fs)
  policy ← policy_of (length workers) policy_fields
  ok (record {
    schema_version = head.schema_version;
    project_name = head.project_name;
    planner = head.planner;
    reviewer = head.reviewer;
    strategy = strategy;
    workers = workers;
    max_parallel_workers = policy.max_parallel;
    max_selected_workers = policy.max_selected;
    result_max_chars = policy.result_max_chars;
    allow_thread_creation = policy.allow_creation;
  })

unfoldable pub load_roster : (Text → Res (Option Json)) → Option Text → Res Roster
load_roster decode file = do
  content ← or_raise file (config_error "roster not found")
  read ← decode content
  v ← or_raise read (config_error "roster is not valid JSON")
  roster_of v
