-- ===== src/Activities/Routes.antt =====
-- How many executors `route_executors_activity` of src/durable_threads/temporal_activities.py names.
use durable_threads.Prelude.{
  ℕ, ◌≤◌, Text, lit, contains, true, ◌||◌, List, [], ◌∷◌, map, length, pos, ◌≡◌, refl, ap, arith,
  ok, err, ok-injective,
}
use durable_threads.Errors.{Error, Res}
use durable_threads.Contracts.{RouteExecutorsInput}
use durable_threads.Registry.{ExecutionSelection}
use durable_threads.Registry.Selection.{select-IsBest}
use durable_threads.Activities.{
  World, route_count, route_requirements, route_executors_activity, no_route,
}

length-map :
    (f : ExecutionSelection → Text) (ss : List ExecutionSelection) → length (map f ss) ≡ length ss
length-map f [] = refl
length-map f (s ∷ ss) = omega (arith, length-map f ss)

module _ (world : World) where
  no_route-length :
      (r : Res (List ExecutionSelection)) (routes : List Text)
      → no_route world r ≡ ok routes
      → ((ss : List ExecutionSelection) → r ≡ ok ss → length ss ≤ 1)
      → length routes ≤ 1
  no_route-length (ok ss) routes h f =
      let same = ap length (ok-injective h) in
      let size = length-map (λ (s : ExecutionSelection). s.descriptor.provider) ss in
      let few = f ss refl in omega (arith, same, size, few)
  no_route-length (err (Error.execution_error m)) routes h f =
      let same = ap length (ok-injective h) in omega (arith, same)
  no_route-length (err e) routes h f = absurd cc

  -- A task that needs the file system or git, so may write to the checkout, is routed to at most one
  -- executor at a time, whatever shape its assessment asks for.
  pub route_executors_activity_single :
      (index : ℕ) (request : RouteExecutorsInput) (routes : List Text)
      → (contains (lit "filesystem") request.task.required_capabilities
          || contains (lit "git") request.task.required_capabilities)
        ≡ true
      → route_executors_activity world index request ≡ ok routes
      → length routes ≤ 1
  unfolding route_executors_activity
  route_executors_activity_single index request routes writes h =
      no_route-length _ routes h (λ ss e.
        let few =
          (select-IsBest (route_requirements world request) true (world.plugins index)
            (route_count world request) ss e).few in
        let one = count_one in ground arith)
    where
      count_one : route_count world request ≡ pos 1
      count_one = unfold route_count in ground arith
