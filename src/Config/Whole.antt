-- ===== src/Config/Whole.antt =====
-- `load_roster` of src/durable_threads/config.py as a whole.
use durable_threads.Prelude.{
  Text, lit, not, Option, ◌≡◌, ok, >>=-eq-ok, ok-injective, raise_if, or_raise, subst, pos, ◌≤ℤ◌,
  length,
}
use durable_threads.Errors.{config_error, Res}
use durable_threads.Json.{Json, Fields, null, int, obj, end}
use durable_threads.Config.{text, object, get_or, role_config}
use durable_threads.Config.Entries.{strategy}
use durable_threads.Config.Roster.{
  Roster, workers_of, policy_of, head_of, Head, roster_of, load_roster, known_schema,
}
use durable_threads.Config.Valid.{IsRole}
use durable_threads.Config.Loaded.{
  role_config-IsRole, IsTeam, workers_of-IsTeam, policy_of-IsPolicy,
}
use durable_threads.Config.Ladder.{IsStrategy, strategy-IsStrategy}

pub record IsRoster (r : Roster) : Type 0 where
  pub planner : IsRole r.planner
  pub reviewer : IsRole r.reviewer
  pub strategy : IsStrategy r.strategy
  pub team : IsTeam r.workers
  pub parallel_at_least_1 : pos 1 ≤ℤ r.max_parallel_workers
  pub selected_at_least_1 : pos 1 ≤ℤ r.max_selected_workers
  pub selected_at_most_all : r.max_selected_workers ≤ℤ pos (length r.workers)
  pub chars_at_least_200 : pos 200 ≤ℤ r.result_max_chars

record HasRoles (h : Head) : Type 0 where
  planner : IsRole h.planner
  reviewer : IsRole h.reviewer

head_of-HasRoles : (fs : Fields) (r : Head) → head_of fs ≡ ok r → HasRoles r
unfolding head_of
head_of-HasRoles fs r h =
    let (known, e₁, h₁) =
      >>=-eq-ok (known_schema (get_or (lit "schemaVersion") (int (pos 1)) fs)) _ h in
    let (u, e₂, h₂) =
      >>=-eq-ok (raise_if (not known) (config_error "schemaVersion must be 1 or 2")) _ h₁ in
    let (project, e₃, h₃) = >>=-eq-ok (object (get_or (lit "project") null fs)) _ h₂ in
    let (name, e₄, h₄) = >>=-eq-ok (text (get_or (lit "name") null project)) _ h₃ in
    let (defaults, e₅, h₅) = >>=-eq-ok (object (get_or (lit "defaults") null fs)) _ h₄ in
    let (planner, e₆, h₆) =
      >>=-eq-ok (role_config (lit "decision") (get_or (lit "planner") null defaults)) _ h₅ in
    let (reviewer, e₇, same) =
      >>=-eq-ok (role_config (lit "review") (get_or (lit "reviewer") null defaults)) _ h₆ in
    subst HasRoles (ok-injective same) (record {
      planner =
          role_config-IsRole (lit "decision") (get_or (lit "planner") null defaults) planner e₆;
      reviewer =
          role_config-IsRole (lit "review") (get_or (lit "reviewer") null defaults) reviewer e₇;
    })

roster_of-IsRoster : (v : Json) (r : Roster) → roster_of v ≡ ok r → IsRoster r
unfolding roster_of
roster_of-IsRoster v r h =
    let (fs, e₁, h₁) = >>=-eq-ok (object v) _ h in
    let (head, e₂, h₂) = >>=-eq-ok (head_of fs) _ h₁ in
    let (strategy, e₃, h₃) = >>=-eq-ok (strategy (get_or (lit "strategy") null fs)) _ h₂ in
    let (workers, e₄, h₄) = >>=-eq-ok (workers_of (get_or (lit "workers") null fs)) _ h₃ in
    let (policy_fields, e₅, h₅) = >>=-eq-ok (object (get_or (lit "policy") (obj end) fs)) _ h₄ in
    let (policy, e₆, same) = >>=-eq-ok (policy_of (length workers) policy_fields) _ h₅ in
    let roles = head_of-HasRoles fs head e₂ in
    let limits = policy_of-IsPolicy (length workers) policy_fields policy e₆ in
    subst IsRoster (ok-injective same) (record {
      planner = roles.planner;
      reviewer = roles.reviewer;
      strategy = strategy-IsStrategy (get_or (lit "strategy") null fs) strategy e₃;
      team = workers_of-IsTeam (get_or (lit "workers") null fs) workers e₄;
      parallel_at_least_1 = limits.parallel_at_least_1;
      selected_at_least_1 = limits.selected_at_least_1;
      selected_at_most_all = limits.selected_at_most_all;
      chars_at_least_200 = limits.chars_at_least_200;
    })

-- A roster that is loaded has known efforts, execution classes and provider ids for the planner, the
-- reviewer and every worker, and follow-ups from 0 to 3; no two workers share a name or a title; its
-- profile is known and its ladder has steps, all of known efforts; at least one worker may run in
-- parallel and at least one may be selected, but not more than there are; and a result may have 200
-- characters or more.
pub load_roster-IsRoster :
    (decode : Text → Res (Option Json)) (file : Option Text) (r : Roster)
    → load_roster decode file ≡ ok r
    → IsRoster r
unfolding load_roster
load_roster-IsRoster decode file r h =
    let (content, e₁, h₁) = >>=-eq-ok (or_raise file (config_error "roster not found")) _ h in
    let (read, e₂, h₂) = >>=-eq-ok (decode content) _ h₁ in
    let (v, e₃, h₃) = >>=-eq-ok (or_raise read (config_error "roster is not valid JSON")) _ h₂ in
    roster_of-IsRoster v r h₃
