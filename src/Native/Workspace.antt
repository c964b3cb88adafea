-- ===== src/Native/Workspace.antt =====
-- When several writers may share a checkout.
use durable_threads.Prelude.{
  Text, Bool, true, false, ℤ, pos, ltb_ℤ, ◌≤ℤ◌, ◌≡◌, ok, >>=-eq-ok, ok-injective, raise_if, arith,
  subst,
}
use durable_threads.Errors.{value_error}
use durable_threads.Risk.{validate_risk}
use durable_threads.Native.{
  WorkerConfig, shared_readonly, shared_write, NativeExecutionHint, recommend_native_execution,
  is_read_only, workspace_of,
}

-- The demands on a hint.
pub record IsIsolated (w : WorkerConfig) (writers : ℤ) (overlapping : Bool)
    (hint : NativeExecutionHint) : Type 0 where
  pub writes : hint.workspace_mode ≡ shared_write → writers ≤ℤ pos 1
  pub reads : hint.workspace_mode ≡ shared_readonly → is_read_only w ≡ true
  pub safe : hint.workspace_mode ≡ shared_write → overlapping ≡ false
  pub serialized : is_read_only w ≡ false → overlapping ≡ true → hint.parallel_safe ≡ false
  pub counted : pos 0 ≤ℤ writers

-- A hint leaves the shared checkout to at most one writer, and never to overlapping ones: those are
-- serialized and not parallel safe, unless the worker only reads; a read-only mode is for such a worker
-- alone, and the number of writers is not negative.
pub recommend_native_execution-IsIsolated :
    (w : WorkerConfig) (risk_class : Text) (writers : ℤ) (overlapping : Bool)
    (hint : NativeExecutionHint)
    → recommend_native_execution w risk_class writers overlapping ≡ ok hint
    → IsIsolated w writers overlapping hint
unfolding recommend_native_execution
recommend_native_execution-IsIsolated w risk_class writers overlapping hint h =
    let (risk, _, h₁) = >>=-eq-ok (validate_risk risk_class) _ h in
    let (_, counted, h₂) =
      >>=-eq-ok (raise_if (ltb_ℤ writers (pos 0)) (value_error "concurrent_writers must be >= 0")) _
        h₁ in
    subst (IsIsolated w writers overlapping) (ok-injective h₂) (record {
      writes = unfold workspace_of in ground arith;
      reads = unfold workspace_of in ground arith;
      safe = unfold workspace_of in ground arith;
      serialized = unfold workspace_of in ground arith;
      counted = ground arith;
    })
