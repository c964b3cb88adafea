-- ===== src/Routing/Chosen.antt =====
-- The route that `select_workers` of src/durable_threads/routing.py returns, for a roster that
-- `load_roster` of src/durable_threads/config.py has returned.
use durable_threads.Prelude.{
  length-map, Text, contains, Bool, true, false, not, Option, some, List, [], ◌∷◌, ◌≡◌, refl, sym,
  ap, ◌∙◌, ◌⊎◌, inl, inr, arith, ok, >>=-eq-ok, ok-injective, raise_if, or_raise, subst, pos, ltb_ℤ,
  ◌≤ℤ◌, all, keep, length, Memb, Memb-keep, Memb-kept, Bool-cases, traverse,
}
use durable_threads.Errors.{value_error, key_error, Res}
use durable_threads.Json.{Json}
use durable_threads.Dict.{get, has}
use durable_threads.Contracts.{is_empty}
use durable_threads.Risk.{RiskAssessment, classify_risk, context_of, label}
use durable_threads.Native.{WorkerConfig}
use durable_threads.Config.Roster.{Roster, are_distinct, load_roster}
use durable_threads.Config.Whole.{IsRoster, load_roster-IsRoster}
use durable_threads.Routing.{
  RouteDecision, named_workers, parallel_count, requested_names, desired_roles, add_workers,
  or_first, without_names, names_of, decision, select_requested, select_by_signals, select_none,
  select_for, select_workers,
}
use durable_threads.Routing.Limits.{
  IsPick, add_workers-IsPick, or_first-IsPick, named_workers-AllUnder, traverse-IsNamed,
}

nothing_under :
    (team : List WorkerConfig) (name : Text) (w : WorkerConfig)
    → get {V = WorkerConfig} name [] ≡ some w
    → (w.name ≡ name) × Memb w team
unfolding get
nothing_under team name w h = absurd (ground arith)

-- Every worker of the team is either selected by name or skipped, and only these are.
pub record IsSplit (team selected skipped : List WorkerConfig) : Type 0 where
  pub apart :
      (w : WorkerConfig)
      → Memb w skipped
      → Memb w team × (contains w.name (names_of selected) ≡ false)
  pub whole :
      (w : WorkerConfig)
      → Memb w team
      → (contains w.name (names_of selected) ≡ true) ⊎ Memb w skipped

pub record IsRoute (roster : Roster) (d : RouteDecision) : Type 0 where
  pub from_roster : (w : WorkerConfig) → Memb w d.selected → Memb w roster.workers
  pub within_limit : pos (length d.selected) ≤ℤ roster.max_selected_workers
  pub within_parallel : pos (parallel_count d.selected) ≤ℤ roster.max_parallel_workers
  pub split : IsSplit roster.workers d.selected d.skipped

Memb-without_names :
    (names : List Text) (ws : List WorkerConfig) (w : WorkerConfig)
    → Memb w ws
    → (contains w.name names ≡ true) ⊎ Memb w (without_names names ws)
unfolding without_names
Memb-without_names names ws w m = elim (Bool-cases (contains w.name names)) [
  | inl named ↦ inl named
  | inr other ↦
      inr (Memb-kept (λ (v : WorkerConfig). not (contains v.name names)) ws m (ground arith))
]

without_names-IsSplit :
    (names : List Text) (team selected : List WorkerConfig)
    → names_of selected ≡ names
    → IsSplit team selected (without_names names team)
unfolding without_names
without_names-IsSplit names team selected e =
    subst (λ ns. IsSplit team selected (without_names ns team)) e
      (record {
        apart = λ w m.
            let (q, k) =
              Memb-keep (λ (v : WorkerConfig). not (contains v.name (names_of selected))) team m in
            (k, ground arith);
        whole = λ w m. Memb-without_names (names_of selected) team w m;
      })

decision-IsRoute :
    (roster : Roster) (explicit : Bool) (risk : RiskAssessment)
    (selected skipped : List WorkerConfig) (d : RouteDecision)
    → IsPick roster.workers roster.max_selected_workers selected
    → IsSplit roster.workers selected skipped
    → decision roster explicit risk selected skipped ≡ ok d
    → IsRoute roster d
unfolding decision
decision-IsRoute roster explicit risk selected skipped d p s h =
    let (u, few, same) =
      >>=-eq-ok
        (raise_if (ltb_ℤ roster.max_parallel_workers (pos (parallel_count selected)))
          (value_error "route selects too many parallel workers"))
        _ h in
    subst (IsRoute roster) (ok-injective same) (record {
      from_roster = p.from_team;
      within_limit = p.within_limit;
      within_parallel = ground arith;
      split = s;
    })

select_by_signals-IsRoute :
    (roster : Roster) (risk : RiskAssessment) (context : Text) (d : RouteDecision)
    → pos 1 ≤ℤ roster.max_selected_workers
    → select_by_signals roster risk context ≡ ok d
    → IsRoute roster d
unfolding select_by_signals
select_by_signals-IsRoute roster risk context d least h =
    let roles = desired_roles roster.workers risk.risk_class context in
    let picked = add_workers roster.max_selected_workers roster.workers roles [] in
    let nobody : IsPick roster.workers roster.max_selected_workers [] = record {
      from_team = λ w m. elim m [ ];
      within_limit = ground arith;
    } in
    let (selected, e, h₁) = >>=-eq-ok (or_first picked roster.workers) _ h in
    decision-IsRoute roster false risk selected (without_names (names_of selected) roster.workers) d
      (or_first-IsPick roster.workers roster.max_selected_workers picked selected least
        (add_workers-IsPick roster.max_selected_workers roster.workers roles [] nobody) e)
      (without_names-IsSplit (names_of selected) roster.workers selected refl) h₁

select_requested-IsRoute :
    (roster : Roster) (risk : RiskAssessment) (requested : List Text) (d : RouteDecision)
    → select_requested roster risk requested ≡ ok d
    → IsRoute roster d
unfolding select_requested
select_requested-IsRoute roster risk requested d h =
    let team = named_workers roster.workers [] in
    let (u₁, e₁, h₁) =
      >>=-eq-ok
        (raise_if (not (are_distinct requested))
          (value_error "requested worker names must be unique"))
        _ h in
    let (u₂, e₂, h₂) =
      >>=-eq-ok
        (raise_if (not (all (λ name. has name team) requested))
          (value_error "unknown worker name(s)"))
        _ h₁ in
    let (u₃, few, h₃) =
      >>=-eq-ok
        (raise_if (ltb_ℤ roster.max_selected_workers (pos (length requested)))
          (value_error "explicit worker selection exceeds policy.maxSelectedWorkers"))
        _ h₂ in
    let (selected, e₄, h₄) =
      >>=-eq-ok (traverse (λ name. or_raise (get name team) (key_error "worker")) requested) _ h₃ in
    let named =
      traverse-IsNamed roster.workers team requested selected
        (named_workers-AllUnder roster.workers roster.workers [] (λ w m. m)
          (nothing_under roster.workers))
        e₄ in
    decision-IsRoute roster true risk selected (without_names requested roster.workers) d
      (record {
        from_team = named.from_team;
        within_limit =
            subst (λ n. pos n ≤ℤ roster.max_selected_workers)
              (ap length (sym named.are_named) ∙ length-map (λ (w : WorkerConfig). w.name) selected)
              (ground arith);
      })
      (without_names-IsSplit requested roster.workers selected named.are_named) h₄

select_none-IsRoute :
    (roster : Roster) (risk : RiskAssessment) (requested : List Text) (d : RouteDecision)
    → IsRoster roster
    → select_none roster risk requested ≡ ok d
    → IsRoute roster d
unfolding select_none parallel_count contains keep
select_none-IsRoute roster risk requested d valid h =
    let (u, e, same) =
      >>=-eq-ok
        (raise_if (not (is_empty requested)) (value_error "local work cannot select workers")) _
        h in
    let parallel = valid.parallel_at_least_1 in
    let selected = valid.selected_at_least_1 in
    subst (IsRoute roster) (ok-injective same) (record {
      from_roster = λ w m. elim m [ ];
      within_limit = ground arith;
      within_parallel = ground arith;
      split = record { apart = λ w m. (m, refl); whole = λ w m. inr m };
    })

pub select_for-IsRoute :
    (roster : Roster) (risk : RiskAssessment) (context : Text) (requested : List Text)
    (local_only : Bool) (d : RouteDecision)
    → IsRoster roster
    → select_for roster risk context requested local_only ≡ ok d
    → IsRoute roster d
unfolding select_for
select_for-IsRoute roster risk context requested true d valid h =
    select_none-IsRoute roster risk requested d valid h
select_for-IsRoute roster risk context [] false d valid h =
    select_by_signals-IsRoute roster risk context d valid.selected_at_least_1 h
select_for-IsRoute roster risk context (name ∷ names) false d valid h =
    select_requested-IsRoute roster risk (name ∷ names) d h

-- For a roster that `load_roster` has returned: the workers that `select_workers` selects are workers of
-- the roster, not more than the selection limit, of which not more may run in parallel than the
-- roster allows; a worker is skipped exactly where it is in the roster and its name is not selected.
pub select_workers-IsRoute :
    (decode : Text → Res (Option Json)) (file : Option Text) (roster : Roster) (objective : Text)
    (allowed_paths acceptance requested_workers : List Text) (local_only : Bool)
    (risk_class : Option Text) (d : RouteDecision)
    → load_roster decode file ≡ ok roster
    → select_workers roster objective allowed_paths acceptance requested_workers local_only
        risk_class
      ≡ ok d
    → IsRoute roster d
unfolding select_workers
select_workers-IsRoute decode file roster objective allowed_paths acceptance requested_workers
      local_only risk_class d loaded h =
    let (risk, e, h₁) =
      >>=-eq-ok
        (classify_risk objective allowed_paths acceptance risk_class
          (label roster.strategy.default_risk))
        _ h in
    select_for-IsRoute roster risk (context_of (objective ∷ allowed_paths))
      (requested_names requested_workers) local_only d
      (load_roster-IsRoster decode file roster loaded) h₁
