-- ===== src/Native.antt =====
-- The worker entry of a roster (src/durable_threads/config.py) and the native runtime shape that
-- src/durable_threads/native.py recommends for it.
pub mod Workspace
mod Samples
use durable_threads.Prelude.{
  ℕ, Text, lit, ◌==◌, contains, Bool, true, false, not, ◌&&◌, ◌||◌, Option, List, [], ◌∷◌, ℤ, pos,
  ltb_ℤ, ok, ◌>>=◌, ◌>>◌, raise_if, if◌then◌else◌,
}
use durable_threads.Errors.{Res, value_error}
use durable_threads.Risk.{Risk, r3, validate_risk, meets}

pub record WorkerConfig : Type 0 where
  pub name : Text
  pub role : Text
  pub provider : Text
  pub thread_title : Text
  pub purpose : Text
  pub model_selector : Text
  pub reasoning_effort : Text
  pub execution_class : Text
  pub thread_id : Option Text
  pub max_followups : ℤ
  pub is_parallel : Bool

-- `_WORKSPACE_MODES`.
pub data WorkspaceMode : Type 0 where
  shared_readonly shared_write isolated_worktree serial : WorkspaceMode

pub data AgentRole : Type 0 where
  default_role explorer worker_role : AgentRole

pub record NativeExecutionHint : Type 0 where
  pub agent_role : AgentRole
  pub workspace_mode : WorkspaceMode
  pub parallel_safe : Bool
  pub frontier_review_recommended : Bool
  pub reason : Text

unfoldable pub codex_agent_role : WorkerConfig → AgentRole
codex_agent_role w =
    if w.role == lit "research-docs"
    then explorer
    else if w.execution_class == lit "workhorse"
        || contains w.role (lit "implementation" ∷ lit "test-debug" ∷ [])
    then worker_role
    else default_role

unfoldable pub is_read_only : WorkerConfig → Bool
is_read_only w =
    contains w.role (lit "research-docs" ∷ lit "security-review" ∷ [])
    || contains w.execution_class (lit "review" ∷ lit "specialist" ∷ [])

unfoldable pub workspace_of : Bool → ℤ → Bool → WorkspaceMode × Bool × Text
workspace_of read_only writers overlapping =
    if read_only
    then (shared_readonly, true, lit "read-only exploration/review can share the parent checkout")
    else if overlapping
    then (serial, false, lit "overlapping write ownership must be serialized")
    else if ltb_ℤ (pos 1) writers
    then (isolated_worktree, true, lit "independent parallel writers should use isolated worktrees")
    else (shared_write, true, lit "one bounded writer can use the shared checkout")

-- The two membership tests of the source hold for every constructor of the two types above.
unfoldable pub recommend_native_execution :
    WorkerConfig
    → (risk_class : Text) (concurrent_writers : ℤ) (overlapping_writes : Bool)
    → Res NativeExecutionHint
recommend_native_execution w risk_class concurrent_writers overlapping_writes = do
  risk ← validate_risk risk_class
  raise_if (ltb_ℤ concurrent_writers (pos 0)) (value_error "concurrent_writers must be >= 0")
  let shape = workspace_of (is_read_only w) concurrent_writers overlapping_writes
  ok (record {
    agent_role = codex_agent_role w;
    workspace_mode = shape.0;
    parallel_safe = shape.1;
    frontier_review_recommended = meets risk r3;
    reason = shape.2;
  })
