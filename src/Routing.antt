-- ===== src/Routing.antt =====
-- The selection of workers in src/durable_threads/routing.py. The texts of the reasons are left out.
pub mod Signals
pub mod Limits
pub mod Chosen
pub mod Reviewer
pub mod Catalog
pub mod Samples
use durable_threads.Routing.Signals.{research_signal, security_signal, test_signal}
use durable_threads.Prelude.{
  ℕ, Text, lit, codes, ◌==◌, contains, strip, nonblank, Bool, true, false, not, ◌&&◌, ◌||◌, Option,
  none, some, List, [], ◌∷◌, ◌++◌, ok, err, ◌>>=◌, ◌>>◌, raise_if, or_raise, if◌then◌else◌, ℤ, pos,
  ltb_ℤ, leb_ℤ, eq_ℤ, map, keep, first, any, all, length, is_some, traverse,
}
use durable_threads.Errors.{Res, value_error, key_error, index_error}
use durable_threads.Dict.{Dict, get, put, has}
use durable_threads.Regex.{Regex, word, seq, char, in_set, search_in}
use durable_threads.Risk.{
  Risk, RiskAssessment, r3, label, meets, classify_risk, change_signal, whole, prefixed, context_of,
}
use durable_threads.Native.{WorkerConfig}
use durable_threads.Config.Roster.{Roster, are_distinct}
use durable_threads.Contracts.{is_empty}

pub record RouteDecision : Type 0 where
  pub selected : List WorkerConfig
  pub skipped : List WorkerConfig
  pub explicit : Bool
  pub risk : RiskAssessment
  pub frontier_review_recommended : Bool

-- The first worker of a role.
unfoldable pub with_role : Text → List WorkerConfig → Option WorkerConfig
with_role role workers = first (λ (w : WorkerConfig). w.role == role) workers

-- `{worker.name: worker for worker in workers}`: a later worker of the same name replaces an earlier one.
unfoldable pub named_workers : List WorkerConfig → Dict WorkerConfig → Dict WorkerConfig
named_workers [] d = d
named_workers (w ∷ ws) d = named_workers ws (put w.name w d)

unfoldable pub parallel_count : List WorkerConfig → ℕ
parallel_count workers = length (keep (λ (w : WorkerConfig). w.is_parallel) workers)

-- The names of the request that are not blank.
unfoldable pub requested_names : List Text → List Text
requested_names names = map strip (keep nonblank names)

-- The roles that the context asks for, in the order in which they are tried.
unfoldable pub desired_roles : List WorkerConfig → Risk → Text → List Text
desired_roles workers risk context =
    let tests = search_in test_signal context in
    let research = search_in research_signal context in
    let security = search_in security_signal context in
    let change = search_in change_signal context in
    (if is_some (with_role (lit "implementation") workers)
        && (change || not (tests || research || security))
      then lit "implementation" ∷ []
      else [])
    ++ ((if is_some (with_role (lit "security-review") workers) && (security || meets risk r3)
          then lit "security-review" ∷ []
          else [])
        ++ ((if is_some (with_role (lit "test-debug") workers) && tests
              then lit "test-debug" ∷ []
              else [])
            ++ (if is_some (with_role (lit "research-docs") workers) && research
                then lit "research-docs" ∷ []
                else [])))

abbrev same_option : Option Text → Option Text → Bool
same_option none none = true
same_option (some s) (some t) = s == t
same_option _ _ = false

abbrev same_bool : Bool → Bool → Bool
same_bool true b = b
same_bool false b = not b

-- `==` of two workers, which are frozen dataclasses.
unfoldable pub same_worker : WorkerConfig → WorkerConfig → Bool
same_worker v w =
    v.name == w.name
    && v.role == w.role
    && v.provider == w.provider
    && v.thread_title == w.thread_title
    && v.purpose == w.purpose
    && v.model_selector == w.model_selector
    && v.reasoning_effort == w.reasoning_effort
    && v.execution_class == w.execution_class
    && same_option v.thread_id w.thread_id
    && eq_ℤ v.max_followups w.max_followups
    && same_bool v.is_parallel w.is_parallel

-- One round of the loop over the desired roles.
unfoldable pub add_worker : ℤ → List WorkerConfig → Option WorkerConfig → List WorkerConfig
add_worker limit selected none = selected
add_worker limit selected (some w) =
    if any (same_worker w) selected || leb_ℤ limit (pos (length selected))
    then selected
    else selected ++ w ∷ []

unfoldable pub add_workers :
    ℤ → List WorkerConfig → List Text → List WorkerConfig → List WorkerConfig
add_workers limit workers [] selected = selected
add_workers limit workers (role ∷ roles) selected =
    add_workers limit workers roles (add_worker limit selected (with_role role workers))

-- `if not selected: selected.append(roster.workers[0])`.
unfoldable pub or_first : List WorkerConfig → List WorkerConfig → Res (List WorkerConfig)
or_first [] [] = err (index_error "tuple index out of range")
or_first [] (w ∷ ws) = ok (w ∷ [])
or_first (s ∷ ss) workers = ok (s ∷ ss)

unfoldable pub without_names : List Text → List WorkerConfig → List WorkerConfig
without_names names workers = keep (λ (w : WorkerConfig). not (contains w.name names)) workers

abbrev pub names_of : List WorkerConfig → List Text
names_of workers = map (λ (w : WorkerConfig). w.name) workers

-- The end of both kinds of selection.
unfoldable pub decision :
    Roster
    → (explicit : Bool) → RiskAssessment
    → List WorkerConfig
    → (skipped : List WorkerConfig) → Res RouteDecision
decision roster explicit risk selected skipped = do
  raise_if (ltb_ℤ roster.max_parallel_workers (pos (parallel_count selected)))
      (value_error "route selects too many parallel workers")
  ok (record {
    selected = selected;
    skipped = skipped;
    explicit = explicit;
    risk = risk;
    frontier_review_recommended = meets risk.risk_class roster.strategy.frontier_review_at;
  })

-- The selection by name.
unfoldable pub select_requested : Roster → RiskAssessment → List Text → Res RouteDecision
select_requested roster risk requested = do
  raise_if (not (are_distinct requested)) (value_error "requested worker names must be unique")
  raise_if (not (all (λ name. has name (named_workers roster.workers [])) requested))
      (value_error "unknown worker name(s)")
  raise_if (ltb_ℤ roster.max_selected_workers (pos (length requested)))
      (value_error "explicit worker selection exceeds policy.maxSelectedWorkers")
  selected ←
      traverse (λ name. or_raise (get name (named_workers roster.workers [])) (key_error "worker"))
        requested
  decision roster true risk selected (without_names requested roster.workers)

-- The selection by the signals of the context.
unfoldable pub select_by_signals : Roster → RiskAssessment → Text → Res RouteDecision
select_by_signals roster risk context = do
  selected ←
      or_first
        (add_workers roster.max_selected_workers roster.workers
          (desired_roles roster.workers risk.risk_class context) [])
        roster.workers
  decision roster false risk selected (without_names (names_of selected) roster.workers)

-- `local_only`.
unfoldable pub select_none : Roster → RiskAssessment → List Text → Res RouteDecision
select_none roster risk requested = do
  raise_if (not (is_empty requested)) (value_error "local work cannot select workers")
  ok (record {
    selected = [];
    skipped = roster.workers;
    explicit = true;
    risk = risk;
    frontier_review_recommended = meets risk.risk_class roster.strategy.frontier_review_at;
  })

-- The three ways to select, once the risk is known.
unfoldable pub select_for :
    Roster
    → RiskAssessment
    → (context : Text) (requested : List Text) (local_only : Bool) → Res RouteDecision
select_for roster risk context requested true = select_none roster risk requested
select_for roster risk context [] false = select_by_signals roster risk context
select_for roster risk context (name ∷ names) false = select_requested roster risk (name ∷ names)

unfoldable pub select_workers :
    Roster
    → (objective : Text) (allowed_paths acceptance requested_workers : List Text)
      (local_only : Bool) (risk_class : Option Text)
    → Res RouteDecision
select_workers roster objective allowed_paths acceptance requested_workers local_only risk_class =
    do
      risk ←
          classify_risk objective allowed_paths acceptance risk_class
            (label roster.strategy.default_risk)
      select_for roster risk (context_of (objective ∷ allowed_paths))
          (requested_names requested_workers) local_only
