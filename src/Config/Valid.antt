-- ===== src/Config/Valid.antt =====
-- What a roster that src/durable_threads/config.py has loaded satisfies.
use durable_threads.Prelude.{
  Text, lit, contains, lower, true, false, not, ◌≡◌, arith, ok, >>=-eq-ok, ok-injective, raise_if,
  subst, ℤ, pos, ltb_ℤ, ◌≤ℤ◌,
}
use durable_threads.Errors.{config_error}
use durable_threads.Regex.{fullmatch}
use durable_threads.Json.{Json, Fields, null, bool, int, float, str, arr, obj}
use durable_threads.Native.{WorkerConfig}
use durable_threads.Config.{
  text, integer, effort_of, efforts, execution_classes, execution_class_of, provider_of,
  provider_id, object, boolean, get_or, RoleConfig, optional_text,
}
use durable_threads.Config.Entries.{
  worker_config, worker_names, worker_model, WorkerNames, WorkerModel,
}

pub record IsWorker (w : WorkerConfig) : Type 0 where
  pub provider_is_id : fullmatch provider_id w.provider ≡ true
  pub effort_is_known : contains w.reasoning_effort efforts ≡ true
  pub class_is_known : contains w.execution_class execution_classes ≡ true
  pub at_least_0 : pos 0 ≤ℤ w.max_followups
  pub at_most_3 : w.max_followups ≤ℤ pos 3

pub record IsRole (r : RoleConfig) : Type 0 where
  pub provider_is_id : fullmatch provider_id r.provider ≡ true
  pub effort_is_known : contains r.reasoning_effort efforts ≡ true
  pub class_is_known : contains r.execution_class execution_classes ≡ true

pub integer-≤ : (minimum : ℤ) (v : Json) (z : ℤ) → integer minimum v ≡ ok z → minimum ≤ℤ z
unfolding integer
integer-≤ minimum (int n) z h =
    let (u, a, same) =
      >>=-eq-ok (raise_if (ltb_ℤ n minimum) (config_error "must be an integer")) _ h in
    subst (λ k. minimum ≤ℤ k) (ok-injective same) (ground arith)
integer-≤ minimum null z h = absurd (ground arith)
integer-≤ minimum (bool b) z h = absurd (ground arith)
integer-≤ minimum (float f) z h = absurd (ground arith)
integer-≤ minimum (str t) z h = absurd (ground arith)
integer-≤ minimum (arr vs) z h = absurd (ground arith)
integer-≤ minimum (obj fs) z h = absurd (ground arith)

pub effort_of-IsKnown : (v : Json) (e : Text) → effort_of v ≡ ok e → contains e efforts ≡ true
unfolding effort_of
effort_of-IsKnown v e h =
    let (t, read, h₁) = >>=-eq-ok (text v) _ h in
    let (u, known, same) =
      >>=-eq-ok
        (raise_if (not (contains t efforts)) (config_error "reasoningEffort is not supported")) _
        h₁ in
    subst (λ k. contains k efforts ≡ true) (ok-injective same) (ground arith)

pub execution_class_of-IsKnown :
    (default : Text) (v : Json) (c : Text)
    → execution_class_of default v ≡ ok c
    → contains c execution_classes ≡ true
unfolding execution_class_of
execution_class_of-IsKnown default v c h =
    let (t, read, h₁) = >>=-eq-ok (text (elim v [ null ↦ str default | other ↦ other ])) _ h in
    let (u, known, same) =
      >>=-eq-ok (raise_if (not (contains t execution_classes)) (config_error "must be one of")) _
        h₁ in
    subst (λ k. contains k execution_classes ≡ true) (ok-injective same) (ground arith)

pub provider_of-IsId : (v : Json) (p : Text) → provider_of v ≡ ok p → fullmatch provider_id p ≡ true
unfolding provider_of
provider_of-IsId v p h =
    let (t, read, h₁) = >>=-eq-ok (text v) _ h in
    let (u, known, same) =
      >>=-eq-ok
        (raise_if (not (fullmatch provider_id (lower t)))
          (config_error "must be a lowercase provider id"))
        _ h₁ in
    subst (λ k. fullmatch provider_id k ≡ true) (ok-injective same) (ground arith)

worker_names-IsId :
    (fs : Fields) (n : WorkerNames)
    → worker_names fs ≡ ok n
    → fullmatch provider_id n.provider ≡ true
unfolding worker_names
worker_names-IsId fs n h =
    let (name, e₁, h₁) = >>=-eq-ok (text (get_or (lit "name") null fs)) _ h in
    let (role, e₂, h₂) = >>=-eq-ok (text (get_or (lit "role") null fs)) _ h₁ in
    let (provider, e₃, h₃) =
      >>=-eq-ok (provider_of (get_or (lit "provider") (str (lit "codex")) fs)) _ h₂ in
    let (title, e₄, same) = >>=-eq-ok (text (get_or (lit "threadTitle") null fs)) _ h₃ in
    subst (λ (k : WorkerNames). fullmatch provider_id k.provider ≡ true) (ok-injective same)
      (provider_of-IsId (get_or (lit "provider") (str (lit "codex")) fs) provider e₃)

worker_model-IsKnown :
    (fs : Fields) (m : WorkerModel)
    → worker_model fs ≡ ok m
    → contains m.reasoning_effort efforts ≡ true
unfolding worker_model
worker_model-IsKnown fs m h =
    let (purpose, e₁, h₁) = >>=-eq-ok (text (get_or (lit "purpose") null fs)) _ h in
    let (selector, e₂, h₂) = >>=-eq-ok (text (get_or (lit "modelSelector") null fs)) _ h₁ in
    let (effort, e₃, h₃) =
      >>=-eq-ok (text (get_or (lit "reasoningEffort") (str (lit "low")) fs)) _ h₂ in
    let (thread, e₄, h₄) = >>=-eq-ok (optional_text (get_or (lit "threadId") null fs)) _ h₃ in
    let (u, known, same) =
      >>=-eq-ok
        (raise_if (not (contains effort efforts)) (config_error "reasoningEffort is not supported"))
        _ h₄ in
    subst (λ (k : WorkerModel). contains k.reasoning_effort efforts ≡ true) (ok-injective same)
      (ground arith)

pub worker_config-IsWorker : (v : Json) (w : WorkerConfig) → worker_config v ≡ ok w → IsWorker w
unfolding worker_config
worker_config-IsWorker v w h =
    let (fs, e₁, h₁) = >>=-eq-ok (object v) _ h in
    let (names, e₂, h₂) = >>=-eq-ok (worker_names fs) _ h₁ in
    let (model, e₃, h₃) = >>=-eq-ok (worker_model fs) _ h₂ in
    let (c, e₄, h₄) =
      >>=-eq-ok (execution_class_of (lit "workhorse") (get_or (lit "executionClass") null fs)) _
        h₃ in
    let (n, e₅, h₅) =
      >>=-eq-ok (integer (pos 0) (get_or (lit "maxFollowups") (int (pos 1)) fs)) _ h₄ in
    let (u, e₆, h₆) =
      >>=-eq-ok (raise_if (ltb_ℤ (pos 3) n) (config_error "maxFollowups must be <= 3")) _ h₅ in
    let (b, e₇, same) = >>=-eq-ok (boolean (get_or (lit "parallel") (bool false) fs)) _ h₆ in
    subst IsWorker (ok-injective same) (record {
      provider_is_id = worker_names-IsId fs names e₂;
      effort_is_known = worker_model-IsKnown fs model e₃;
      class_is_known =
          execution_class_of-IsKnown (lit "workhorse") (get_or (lit "executionClass") null fs) c e₄;
      at_least_0 = integer-≤ (pos 0) (get_or (lit "maxFollowups") (int (pos 1)) fs) n e₅;
      at_most_3 = ground arith;
    })
