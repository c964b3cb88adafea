-- ===== src/Routing/Reviewer.antt =====
-- The security reviewer in `select_workers` of src/durable_threads/routing.py.
use durable_threads.Prelude.{
  Text, lit, ==_iff, Bool, true, false, not, ◌&&◌, ◌||◌, Option, none, some, List, [], ◌∷◌, ◌++◌,
  ◌≡◌, ◌≢◌, refl, sym, ap, ◌∙◌, arith, ok, >>=-eq-ok, ok-injective, raise_if, subst, ℤ, pos, ltb_ℤ,
  leb_ℤ, ◌≤ℤ◌, any, length, is_some, Memb, here, there, Memb-append_left, if◌then◌else◌,
}
use durable_threads.Errors.{value_error}
use durable_threads.Regex.{search_in}
use durable_threads.Risk.{
  Risk, r3, RiskAssessment, meets, classify_risk, context_of, label, change_signal,
}
use durable_threads.Native.{WorkerConfig}
use durable_threads.Config.Roster.{Roster}
use durable_threads.Routing.Signals.{test_signal, research_signal, security_signal}
use durable_threads.Routing.{
  RouteDecision, with_role, parallel_count, requested_names, desired_roles, same_worker, add_worker,
  add_workers, or_first, without_names, names_of, decision, select_by_signals, select_for,
  select_workers,
}
use durable_threads.Routing.Limits.{with_role-Memb}

Memb-add_worker :
    (limit : ℤ) (picked : List WorkerConfig) (o : Option WorkerConfig) (w : WorkerConfig)
    → Memb w picked
    → Memb w (add_worker limit picked o)
unfolding add_worker
Memb-add_worker limit picked none w m = m
Memb-add_worker limit picked (some v) w m =
    kept (any (same_worker v) picked || leb_ℤ limit (pos (length picked)))
  where
    kept : (b : Bool) → Memb w (if b then picked else picked ++ v ∷ [])
    kept true = m
    kept false = Memb-append_left picked (v ∷ []) m

Memb-add_workers :
    (limit : ℤ) (team : List WorkerConfig) (roles : List Text) (picked : List WorkerConfig)
    (w : WorkerConfig)
    → Memb w picked
    → Memb w (add_workers limit team roles picked)
unfolding add_workers
Memb-add_workers limit team [] picked w m = m
Memb-add_workers limit team (role ∷ roles) picked w m =
    Memb-add_workers limit team roles (add_worker limit picked (with_role role team)) w
      (Memb-add_worker limit picked (with_role role team) w m)

-- A worker of another role is another worker.
any_same-false : (w v : WorkerConfig) → w.role ≢ v.role → any (same_worker w) (v ∷ []) ≡ false
unfolding any same_worker
any_same-false w v n = ground (arith, ==_iff w.role v.role)

add_worker-second :
    (limit : ℤ) (w : WorkerConfig) (o : Option WorkerConfig)
    → pos 2 ≤ℤ limit
    → ((v : WorkerConfig) → o ≡ some v → w.role ≢ v.role)
    → Memb w (add_worker limit (add_worker limit [] o) (some w))
unfolding add_worker any
add_worker-second limit w none h n = placed (leb_ℤ limit (pos 0)) refl
  where
    placed : (b : Bool) → leb_ℤ limit (pos 0) ≡ b → Memb w (if b then [] else w ∷ [])
    placed true e = absurd (ground arith)
    placed false e = here refl
add_worker-second limit w (some v) h n = after (leb_ℤ limit (pos 0)) refl
  where
    second :
        (a b : Bool)
        → any (same_worker w) (v ∷ []) ≡ a
        → leb_ℤ limit (pos 1) ≡ b
        → Memb w (if a || b then v ∷ [] else v ∷ w ∷ [])
    second a true e f = absurd (ground arith)
    second true false e f = absurd (ground (arith, any_same-false w v (n v refl)))
    second false false e f = there (here refl)

    after :
        (b : Bool)
        → leb_ℤ limit (pos 0) ≡ b
        → Memb w (add_worker limit (if b then [] else v ∷ []) (some w))
    after true e = absurd (ground arith)
    after false e = second (any (same_worker w) (v ∷ [])) (leb_ℤ limit (pos 1)) refl refl

-- What comes before and behind the reviewer among the desired roles.
add_workers-reviewer :
    (limit : ℤ) (team : List WorkerConfig) (w : WorkerConfig) (first_role : Bool) (rest : List Text)
    → pos 2 ≤ℤ limit
    → with_role (lit "security-review") team ≡ some w
    → Memb w (
        add_workers limit team
          ((if first_role then lit "implementation" ∷ [] else []) ++ (lit "security-review" ∷ rest))
          [])
unfolding add_workers lit add_worker
add_workers-reviewer limit team w false rest h e =
    Memb-add_workers limit team rest _ w
      (rw e (add_worker-second limit w none h (λ v k. absurd (ground arith))))
add_workers-reviewer limit team w true rest h e = Memb-add_workers limit team rest _ w (
    rw e (
      add_worker-second limit w (with_role (lit "implementation") team) h (λ v k q. different (
        sym (with_role-Memb (lit "security-review") team w e).1
        ∙ (q ∙ (with_role-Memb (lit "implementation") team v k).1)))))
  where
    different : lit "security-review" ≡ lit "implementation" → ⊥
    different q = ground (arith, ==_iff (lit "security-review") (lit "implementation"))

Memb-or_first :
    (picked team selected : List WorkerConfig) (w : WorkerConfig)
    → Memb w picked
    → or_first picked team ≡ ok selected
    → Memb w selected
unfolding or_first
Memb-or_first [] team selected w m h = elim m [ ]
Memb-or_first (s ∷ ss) team selected w m h = subst (Memb w) (ok-injective h) m

-- The reviewer is wanted for a class that meets R3.
add_workers-desired :
    (limit : ℤ) (team : List WorkerConfig) (w : WorkerConfig) (risk : Risk) (context : Text)
    → pos 2 ≤ℤ limit
    → with_role (lit "security-review") team ≡ some w
    → meets risk r3 ≡ true
    → Memb w (add_workers limit team (desired_roles team risk context) [])
unfolding desired_roles
add_workers-desired limit team w risk context h e high =
    let tests = search_in test_signal context in
    let research = search_in research_signal context in
    let security = search_in security_signal context in
    wanted security
      (is_some (with_role (lit "implementation") team)
        && (search_in change_signal context || not (tests || research || security)))
      _
  where
    wanted :
        (security first_role : Bool) (rest : List Text)
        → Memb w (
            add_workers limit team
              ((if first_role then lit "implementation" ∷ [] else [])
                ++ ((if is_some (with_role (lit "security-review") team)
                        && (security || meets risk r3)
                      then lit "security-review" ∷ []
                      else [])
                    ++ rest))
              [])
    wanted true first_role rest = rw e (add_workers-reviewer limit team w first_role rest h e)
    wanted false first_role rest =
        rw e (rw high (add_workers-reviewer limit team w first_role rest h e))

decision-selected :
    (roster : Roster) (explicit : Bool) (risk : RiskAssessment)
    (selected skipped : List WorkerConfig) (d : RouteDecision)
    → decision roster explicit risk selected skipped ≡ ok d
    → (d.selected ≡ selected) × (d.risk ≡ risk)
unfolding decision
decision-selected roster explicit risk selected skipped d h =
    let (u, few, same) =
      >>=-eq-ok
        (raise_if (ltb_ℤ roster.max_parallel_workers (pos (parallel_count selected)))
          (value_error "route selects too many parallel workers"))
        _ h in
    (
      ap (λ (x : RouteDecision). x.selected) (sym (ok-injective same)),
      ap (λ (x : RouteDecision). x.risk) (sym (ok-injective same)),
    )

select_by_signals-reviewer :
    (roster : Roster) (risk : RiskAssessment) (context : Text) (d : RouteDecision)
    (w : WorkerConfig)
    → pos 2 ≤ℤ roster.max_selected_workers
    → with_role (lit "security-review") roster.workers ≡ some w
    → select_by_signals roster risk context ≡ ok d
    → meets d.risk.risk_class r3 ≡ true
    → Memb w d.selected
unfolding select_by_signals
select_by_signals-reviewer roster risk context d w least e h high =
    let picked =
      add_workers roster.max_selected_workers roster.workers
        (desired_roles roster.workers risk.risk_class context) [] in
    let (selected, taken, h₁) = >>=-eq-ok (or_first picked roster.workers) _ h in
    let (same, risks) =
      decision-selected roster false risk selected
        (without_names (names_of selected) roster.workers) d h₁ in
    subst (Memb w) (sym same) (
      Memb-or_first picked roster.workers selected w
        (add_workers-desired roster.max_selected_workers roster.workers w risk.risk_class context
          least e (subst (λ (r : RiskAssessment). meets r.risk_class r3 ≡ true) risks high))
        taken)

-- Where the roster has a worker of the role security-review and a selection limit of 2 or more, no
-- worker is requested by name and the work is not local: a route for a task whose class is R3 or R4
-- has the first such worker among those that are selected.
pub select_workers_reviewer :
    (roster : Roster) (objective : Text) (allowed_paths acceptance requested_workers : List Text)
    (risk_class : Option Text) (d : RouteDecision) (w : WorkerConfig)
    → pos 2 ≤ℤ roster.max_selected_workers
    → with_role (lit "security-review") roster.workers ≡ some w
    → requested_names requested_workers ≡ []
    → select_workers roster objective allowed_paths acceptance requested_workers false risk_class
      ≡ ok d
    → meets d.risk.risk_class r3 ≡ true
    → Memb w d.selected
unfolding select_workers select_for
select_workers_reviewer roster objective allowed_paths acceptance requested_workers risk_class d w
      least e nobody h high =
    let (risk, known, h₁) =
      >>=-eq-ok
        (classify_risk objective allowed_paths acceptance risk_class
          (label roster.strategy.default_risk))
        _ h in
    select_by_signals-reviewer roster risk (context_of (objective ∷ allowed_paths)) d w least e
      (subst
        (λ names.
          select_for roster risk (context_of (objective ∷ allowed_paths)) names false ≡ ok d)
        nobody h₁)
      high
