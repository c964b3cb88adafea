-- ===== src/Routing/Samples.antt =====
-- Routes for the roster of three workers.
use durable_threads.Prelude.{
  codes, lit, ◌==◌, contains, lower, strip, nonblank, join, any, all, traverse, keep, first, true,
  false, none, some, [], ◌∷◌, ◌≡◌, refl, ok, Memb,
}
use durable_threads.Json.{str, obj, arr, end, field, nil, cons, get_field, truthy}
use durable_threads.Dict.{get, put, has}
use durable_threads.Regex.{search_in}
use durable_threads.Risk.{RiskAssessment, r3, meets}
use durable_threads.Risk.Samples.{classifier}
use durable_threads.Config.{get_or}
use durable_threads.Config.Roster.{are_distinct}
use durable_threads.Config.Samples.{decode, roster, worker, is_loaded, selects_two}
use durable_threads.Routing.Signals.{test_signal, research_signal, security_signal}
use durable_threads.Routing.{
  RouteDecision, with_role, named_workers, parallel_count, requested_names, desired_roles,
  same_worker, add_worker, add_workers, or_first, without_names, decision, select_requested,
  select_by_signals, select_none, select_for, select_workers,
}
use durable_threads.Routing.Chosen.{IsRoute, select_workers-IsRoute}
use durable_threads.Routing.Reviewer.{select_workers_reviewer}
use durable_threads.Routing.Catalog.{model_info, object_items, raw_models, catalog_from_payload}

unfoldable pub routes : Unit {0}
unfolding classifier meets test_signal research_signal security_signal with_role named_workers
    parallel_count requested_names desired_roles same_worker add_worker add_workers or_first
    without_names decision select_requested select_by_signals select_none select_for select_workers
    are_distinct get put has lit ◌==◌ contains strip nonblank any all traverse keep first search_in
    join
routes = tt

abbrev auth_risk : RiskAssessment
unfolding lit
auth_risk = record {
  risk_class = r3;
  reasons = codes "critical security, data, production, or concurrency signal detected" ∷ [];
  explicit = false;
}

abbrev pub auth_route : RouteDecision
unfolding lit
auth_route = record {
  selected =
      worker (codes "ada") (codes "implementation")
      ∷ worker (codes "sec") (codes "security-review")
      ∷ [];
  skipped = worker (codes "doc") (codes "research-docs") ∷ [];
  explicit = false;
  risk = auth_risk;
  frontier_review_recommended = true;
}

auth_is_routed :
    select_workers roster (codes "Fix the login bug in the auth service") [] [] [] false none
    ≡ ok auth_route
unfolding routes
auth_is_routed = refl

select_workers-IsRoute_example : IsRoute roster auth_route
select_workers-IsRoute_example =
    select_workers-IsRoute decode (some (codes "{}")) roster
      (codes "Fix the login bug in the auth service") [] [] [] false none auth_route is_loaded
      auth_is_routed

has_reviewer :
    with_role (lit "security-review") roster.workers
    ≡ some (worker (codes "sec") (codes "security-review"))
unfolding routes
has_reviewer = refl

nobody_requested : requested_names [] ≡ []
unfolding routes
nobody_requested = refl

is_high : meets auth_route.risk.risk_class r3 ≡ true
unfolding routes auth_route
is_high = refl

select_workers_reviewer_example :
    Memb (worker (codes "sec") (codes "security-review")) auth_route.selected
select_workers_reviewer_example =
    select_workers_reviewer roster (codes "Fix the login bug in the auth service") [] [] [] none
      auth_route (worker (codes "sec") (codes "security-review")) selects_two has_reviewer
      nobody_requested auth_is_routed is_high

-- A model catalog as an array, with an item that is no object.
models_read :
    catalog_from_payload
      (λ v. codes "?")
      (arr (cons (obj (field (codes "id") (str (codes " m1 ")) end)) (cons (str (codes "m2")) nil)))
    ≡ ok (
        record {
          model_id = codes "m1";
          display_name = codes "m1";
          tier = codes "unknown";
          is_default = false;
        }
        ∷ [])
unfolding routes catalog_from_payload raw_models object_items model_info get_or get_field lower
    truthy
models_read = refl
