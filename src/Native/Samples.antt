-- ===== src/Native/Samples.antt =====
-- Two overlapping writers.
use durable_threads.Prelude.{lit, codes, ◌==◌, contains, upper, strip, true, false, none, pos, refl}
use durable_threads.Risk.{rank, validate_risk, parse_label, label, meets}
use durable_threads.Native.{
  WorkerConfig, serial, NativeExecutionHint, recommend_native_execution, is_read_only, workspace_of,
  codex_agent_role,
}
use durable_threads.Native.Workspace.{IsIsolated, recommend_native_execution-IsIsolated}

abbrev implementer : WorkerConfig
implementer = record {
  name = codes "impl";
  role = codes "implementation";
  provider = codes "codex";
  thread_title = codes "impl";
  purpose = codes "code";
  model_selector = codes "default";
  reasoning_effort = codes "medium";
  execution_class = codes "workhorse";
  thread_id = none;
  max_followups = pos 1;
  is_parallel = false;
}

abbrev serial_hint : NativeExecutionHint
serial_hint = record {
  agent_role = codex_agent_role implementer;
  workspace_mode = serial;
  parallel_safe = false;
  frontier_review_recommended = true;
  reason = codes "overlapping write ownership must be serialized";
}

recommend_native_execution-IsIsolated_example : IsIsolated implementer (pos 2) true serial_hint
unfolding recommend_native_execution workspace_of is_read_only validate_risk parse_label label upper
    strip lit ◌==◌ contains meets rank
recommend_native_execution-IsIsolated_example =
    recommend_native_execution-IsIsolated implementer (codes "R3") (pos 2) true serial_hint refl
