-- ===== src/Registry/Required.antt =====
-- What `rank` of src/durable_threads/execution.py requires of an executor, and its order, stated over
-- the fields.
use durable_threads.Prelude.{
  ℕ, ◌+◌, ◌*◌, ◌<◌, Text, contains, contains-Memb, Memb-contains, text_ltb, true, false, List, [],
  ◌∷◌, ◌≡◌, refl, ◌⊎◌, all, arith, Memb, here, there, or_else, sym, subst,
}
use durable_threads.Registry.{
  ExecutorDescriptor, ExecutionRequirements, ExecutionSelection, selection_of, misses, is_before,
  points, preferred_weight,
}

-- An executor that meets the requirements.
pub record Meets (r : ExecutionRequirements) (d : ExecutorDescriptor) : Type 0 where
  pub allowed : contains d.provider r.excluded_providers ≡ false
  pub capable : (c : Text) → Memb c r.capabilities → Memb c d.capabilities
  pub headless : r.headless ≡ true → d.headless ≡ true
  pub persistent : r.persistent_session ≡ true → d.persistent_sessions ≡ true
  pub structured : r.structured_output ≡ true → d.structured_output ≡ true
  pub effort : r.effort_control ≡ true → d.supports_effort ≡ true

all_contained :
    (required offered : List Text)
    → all (λ c. contains c offered) required ≡ true
    → (c : Text) → Memb c required
    → Memb c offered
unfolding all
all_contained [] offered h c m = elim m [ ]
all_contained (x ∷ required) offered h c (here e) =
    subst (λ t. Memb t offered) (sym e) (contains-Memb x offered (ground arith))
all_contained (x ∷ required) offered h c (there m) =
    all_contained required offered (ground arith) c m

contained_all :
    (required offered : List Text)
    → ((c : Text) → Memb c required → Memb c offered)
    → all (λ c. contains c offered) required ≡ true
unfolding all
contained_all [] offered h = refl
contained_all (x ∷ required) offered h =
    let first = Memb-contains x offered (h x (here refl)) in
    let rest = contained_all required offered (λ c m. h c (there m)) in ground arith

pub misses→Meets :
    (r : ExecutionRequirements) (d : ExecutorDescriptor) → misses r d ≡ false → Meets r d
unfolding misses
misses→Meets r d h = record {
  allowed = ground arith;
  capable = all_contained r.capabilities d.capabilities (ground arith);
  headless = λ e. ground arith;
  persistent = λ e. ground arith;
  structured = λ e. ground arith;
  effort = λ e. ground arith;
}

pub Meets→misses :
    (r : ExecutionRequirements) (d : ExecutorDescriptor) → Meets r d → misses r d ≡ false
unfolding misses
Meets→misses r d m =
    let contained = contained_all r.capabilities d.capabilities m.capable in
    let allowed = m.allowed in
    let headless = m.headless in
    let persistent = m.persistent in
    let structured = m.structured in let effort = m.effort in ground arith

-- What an executor is worth: the place of its provider among the preferred ones decides before its
-- structured output, its persistent sessions and its control of effort.
abbrev pub worth : ExecutionRequirements → ExecutorDescriptor → ℕ
worth r d =
    100 * or_else (preferred_weight d.provider r.preferred_providers) 0
    + (points d.structured_output 5 + (points d.persistent_sessions 3 + points d.supports_effort 1))

pub selection_of-worth :
    (r : ExecutionRequirements) (d : ExecutorDescriptor) → (selection_of r d).score ≡ worth r d
unfolding selection_of
selection_of-worth r d = omega arith

-- A selection that is worth more than an executor, or as much with an id that is not above its id.
abbrev pub IsAhead : ExecutionSelection → ExecutionRequirements → ExecutorDescriptor → Type 0
IsAhead s r d =
    (worth r d < s.score)
    ⊎ ((s.score ≡ worth r d) × (text_ltb d.executor_id s.descriptor.executor_id ≡ false))

pub is_before-IsAhead :
    (s : ExecutionSelection) (r : ExecutionRequirements) (d : ExecutorDescriptor)
    → is_before s (selection_of r d) ≡ true
    → IsAhead s r d
unfolding is_before selection_of
is_before-IsAhead s r d h = ground arith

-- The order of `preferred_providers` decides before every other point of the score.
is_before-preferred :
    (r : ExecutionRequirements) (d e : ExecutorDescriptor)
    → or_else (preferred_weight e.provider r.preferred_providers) 0
      < or_else (preferred_weight d.provider r.preferred_providers) 0
    → is_before (selection_of r d) (selection_of r e) ≡ true
unfolding selection_of is_before
is_before-preferred r d e h = ground arith
