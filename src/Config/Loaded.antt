-- ===== src/Config/Loaded.antt =====
-- What `load_roster` of src/durable_threads/config.py guarantees of the roster that it returns.
use durable_threads.Prelude.{
  ℕ, Text, lit, true, false, not, List, [], ◌∷◌, ◌≡◌, arith, ok, >>=-eq-ok, ok-injective, raise_if,
  traverse, subst, pos, ltb_ℤ, ◌≤ℤ◌, map, Memb, Distinct, no_values, one_more, traverse-Memb,
  Memb-contains,
}
use durable_threads.Errors.{config_error}
use durable_threads.Json.{Json, Fields, null, bool, int, str}
use durable_threads.Native.{WorkerConfig}
use durable_threads.Config.{
  text, integer, effort_of, execution_class_of, provider_of, object, boolean, get_or, RoleConfig,
  role_config,
}
use durable_threads.Config.Entries.{worker_config}
use durable_threads.Config.Roster.{
  are_distinct, worker_list, workers_of, Policy, policy_of, two_or_less,
}
use durable_threads.Config.Valid.{
  IsWorker, IsRole, integer-≤, effort_of-IsKnown, execution_class_of-IsKnown, provider_of-IsId,
  worker_config-IsWorker,
}

are_distinct-Distinct : (ts : List Text) → are_distinct ts ≡ true → Distinct ts
unfolding are_distinct
are_distinct-Distinct [] h = no_values
are_distinct-Distinct (t ∷ ts) h =
    one_more (λ m. absurd (ground (arith, Memb-contains t ts m)))
      (are_distinct-Distinct ts (ground arith))

pub role_config-IsRole :
    (default : Text) (v : Json) (r : RoleConfig) → role_config default v ≡ ok r → IsRole r
unfolding role_config
role_config-IsRole default v r h =
    let (fs, e₁, h₁) = >>=-eq-ok (object v) _ h in
    let (role, e₂, h₂) = >>=-eq-ok (text (get_or (lit "role") null fs)) _ h₁ in
    let (provider, e₃, h₃) =
      >>=-eq-ok (provider_of (get_or (lit "provider") (str (lit "codex")) fs)) _ h₂ in
    let (selector, e₄, h₄) = >>=-eq-ok (text (get_or (lit "modelSelector") null fs)) _ h₃ in
    let (effort, e₅, h₅) = >>=-eq-ok (effort_of (get_or (lit "reasoningEffort") null fs)) _ h₄ in
    let (c, e₆, same) =
      >>=-eq-ok (execution_class_of default (get_or (lit "executionClass") null fs)) _ h₅ in
    subst IsRole (ok-injective same) (record {
      provider_is_id =
          provider_of-IsId (get_or (lit "provider") (str (lit "codex")) fs) provider e₃;
      effort_is_known = effort_of-IsKnown (get_or (lit "reasoningEffort") null fs) effort e₅;
      class_is_known =
          execution_class_of-IsKnown default (get_or (lit "executionClass") null fs) c e₆;
    })

pub record IsTeam (workers : List WorkerConfig) : Type 0 where
  pub valid : (w : WorkerConfig) → Memb w workers → IsWorker w
  pub names_differ : Distinct (map (λ (w : WorkerConfig). w.name) workers)
  pub titles_differ : Distinct (map (λ (w : WorkerConfig). w.thread_title) workers)

pub workers_of-IsTeam : (v : Json) (ws : List WorkerConfig) → workers_of v ≡ ok ws → IsTeam ws
unfolding workers_of
workers_of-IsTeam v ws h =
    let (raw, e₁, h₁) = >>=-eq-ok (worker_list v) _ h in
    let (found, e₂, h₂) = >>=-eq-ok (traverse worker_config raw) _ h₁ in
    let (u, names, h₃) =
      >>=-eq-ok
        (raise_if (not (are_distinct (map (λ (w : WorkerConfig). w.name) found)))
          (config_error "worker names must be unique"))
        _ h₂ in
    let (u₂, titles, same) =
      >>=-eq-ok
        (raise_if (not (are_distinct (map (λ (w : WorkerConfig). w.thread_title) found)))
          (config_error "worker threadTitle values must be unique"))
        _ h₃ in
    subst IsTeam (ok-injective same) (record {
      valid = λ w m.
          let (v, k, e) = traverse-Memb worker_config raw found e₂ w m in
          worker_config-IsWorker v w e;
      names_differ =
          are_distinct-Distinct (map (λ (w : WorkerConfig). w.name) found) (ground arith);
      titles_differ =
          are_distinct-Distinct (map (λ (w : WorkerConfig). w.thread_title) found) (ground arith);
    })

pub record IsPolicy (count : ℕ) (p : Policy) : Type 0 where
  pub parallel_at_least_1 : pos 1 ≤ℤ p.max_parallel
  pub selected_at_least_1 : pos 1 ≤ℤ p.max_selected
  pub selected_at_most_all : p.max_selected ≤ℤ pos count
  pub chars_at_least_200 : pos 200 ≤ℤ p.result_max_chars

pub policy_of-IsPolicy :
    (count : ℕ) (fs : Fields) (p : Policy) → policy_of count fs ≡ ok p → IsPolicy count p
unfolding policy_of
policy_of-IsPolicy count fs p h =
    let (parallel, e₁, h₁) =
      >>=-eq-ok (integer (pos 1) (get_or (lit "maxParallelWorkers") (int (pos 2)) fs)) _ h in
    let (selected, e₂, h₂) =
      >>=-eq-ok
        (integer (pos 1) (get_or (lit "maxSelectedWorkers") (int (pos (two_or_less count))) fs)) _
        h₁ in
    let (u, e₃, h₃) =
      >>=-eq-ok
        (raise_if (ltb_ℤ (pos count) selected)
          (config_error "policy.maxSelectedWorkers cannot exceed the worker count"))
        _ h₂ in
    let (chars, e₄, h₄) =
      >>=-eq-ok (integer (pos 200) (get_or (lit "resultMaxChars") (int (pos 2000)) fs)) _ h₃ in
    let (creation, e₅, same) =
      >>=-eq-ok (boolean (get_or (lit "allowThreadCreation") (bool false) fs)) _ h₄ in
    subst (IsPolicy count) (ok-injective same) (record {
      parallel_at_least_1 =
          integer-≤ (pos 1) (get_or (lit "maxParallelWorkers") (int (pos 2)) fs) parallel e₁;
      selected_at_least_1 =
          integer-≤ (pos 1) (get_or (lit "maxSelectedWorkers") (int (pos (two_or_less count))) fs)
            selected e₂;
      selected_at_most_all = ground arith;
      chars_at_least_200 =
          integer-≤ (pos 200) (get_or (lit "resultMaxChars") (int (pos 2000)) fs) chars e₄;
    })
