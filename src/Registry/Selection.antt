-- ===== src/Registry/Selection.antt =====
-- What `rank` and `select` choose among the registered executors.
use durable_threads.Prelude.{
  inr, inl, ◌∙◌, raise_if, ltb_ℤ, ◌≤◌, Text, Bool, true, false, List, [], ◌∷◌, ◌≡◌, refl, ◌⊎◌, ℤ,
  pos, pos_part, ◌≤ℤ◌, arith, ok, >>=-eq-ok, ok-injective, Memb, here, there, Memb-take, take,
  length, length-take, subst, sym, if◌then◌else◌, ap,
}
use durable_threads.Errors.{value_error}
use durable_threads.Dict.{Dict}
use durable_threads.Registry.{
  ExecutorDescriptor, ExecutorPlugin, ExecutionRequirements, ExecutionSelection, selection_of,
  is_before, sorted, suitable, available, candidates, rank_plugins, select, some_of,
}
use durable_threads.Registry.Required.{
  Meets, misses→Meets, Meets→misses, worth, selection_of-worth, IsAhead, is_before-IsAhead,
}
use durable_threads.Registry.Order.{sorted-Memb, Memb-sorted, sorted-Ordered, taken_or_behind}

module _ {B : Type 0} (r : ExecutionRequirements) (only : Bool)
    (plugins : Dict (ExecutorPlugin B)) where
  -- A registered executor that meets every requirement, and answers its probe if that is asked for.
  pub record Fits (d : ExecutorDescriptor) : Type 0 where
    pub meets : Meets r d
    pub answers : only ≡ true → available d.executor_id plugins ≡ ok true

  suitable-Fits : (d : ExecutorDescriptor) → suitable r only plugins d ≡ ok true → Fits d
  unfolding suitable
  suitable-Fits d h = record { meets = misses→Meets r d (ground arith); answers = ground arith }

  Fits-suitable : (d : ExecutorDescriptor) → Fits d → suitable r only plugins d ≡ ok true
  unfolding suitable
  Fits-suitable d f = let m = Meets→misses r d f.meets in let a = f.answers in ground arith

  -- The selection of a registered executor that fits.
  pub record IsChoice (ps : Dict (ExecutorPlugin B)) (s : ExecutionSelection) : Type 0 where
    pub key : Text
    pub plugin : ExecutorPlugin B
    pub registered : Memb (key, plugin) ps
    pub fits : Fits plugin.descriptor
    pub scored : s ≡ selection_of r plugin.descriptor
    pub valued : s.score ≡ worth r plugin.descriptor

  behind :
      {ps : Dict (ExecutorPlugin B)} {s : ExecutionSelection} (k : Text) (p : ExecutorPlugin B)
      → IsChoice ps s
      → IsChoice ((k, p) ∷ ps) s
  behind k p c = record {
    key = c.key;
    plugin = c.plugin;
    registered = there c.registered;
    fits = c.fits;
    scored = c.scored;
    valued = c.valued;
  }

  head-IsChoice :
      (b : Bool) (k : Text) (p : ExecutorPlugin B) (ps : Dict (ExecutorPlugin B))
      (found : List ExecutionSelection) (s : ExecutionSelection)
      → suitable r only plugins p.descriptor ≡ ok b
      → (Memb s found → IsChoice ps s)
      → Memb s (if b then selection_of r p.descriptor ∷ found else found)
      → IsChoice ((k, p) ∷ ps) s
  head-IsChoice true k p ps found s h f (here e) = record {
    key = k;
    plugin = p;
    registered = here refl;
    fits = suitable-Fits p.descriptor h;
    scored = e;
    valued = ap (λ (x : ExecutionSelection). x.score) e ∙ selection_of-worth r p.descriptor;
  }
  head-IsChoice true k p ps found s h f (there m) = behind k p (f m)
  head-IsChoice false k p ps found s h f m = behind k p (f m)

  candidates-IsChoice :
      (ps : Dict (ExecutorPlugin B)) (found : List ExecutionSelection) (s : ExecutionSelection)
      → candidates r only plugins ps ≡ ok found
      → Memb s found
      → IsChoice ps s
  unfolding candidates
  candidates-IsChoice [] found s h m = elim (subst (Memb s) (sym (ok-injective h)) m) [ ]
  candidates-IsChoice ((k, p) ∷ ps) found s h m =
      let (b, fits, h₁) = >>=-eq-ok (suitable r only plugins p.descriptor) _ h in
      let (rest, above, h₂) = >>=-eq-ok (candidates r only plugins ps) _ h₁ in
      head-IsChoice b k p ps rest s fits (candidates-IsChoice ps rest s above)
        (subst (Memb s) (sym (ok-injective h₂)) m)

  pub candidates_complete :
      (ps : Dict (ExecutorPlugin B)) (found : List ExecutionSelection) (k : Text)
      (p : ExecutorPlugin B)
      → candidates r only plugins ps ≡ ok found
      → Memb (k, p) ps
      → Fits p.descriptor
      → Memb (selection_of r p.descriptor) found
  unfolding candidates
  candidates_complete [] found k p h m f = elim m [ ]
  candidates_complete ((j, q) ∷ ps) found k p h (here e) f =
      let (b, fits, h₁) = >>=-eq-ok (suitable r only plugins q.descriptor) _ h in
      let (rest, above, h₂) = >>=-eq-ok (candidates r only plugins ps) _ h₁ in
      let suits = Fits-suitable p.descriptor f in
      let same = ap (λ (x : Text × ExecutorPlugin B). x.1) e in
      subst (Memb (selection_of r p.descriptor)) (ok-injective h₂) (kept b q rest fits same suits)
    where
      kept :
          (b : Bool) (q : ExecutorPlugin B) (rest : List ExecutionSelection)
          → suitable r only plugins q.descriptor ≡ ok b
          → p ≡ q
          → suitable r only plugins p.descriptor ≡ ok true
          → Memb
              (selection_of r p.descriptor)
              (if b then selection_of r q.descriptor ∷ rest else rest)
      kept true q rest h e f = here (ap (λ (x : ExecutorPlugin B). selection_of r x.descriptor) e)
      kept false q rest h e f = absurd cc
  candidates_complete ((j, q) ∷ ps) found k p h (there m) f =
      let (b, fits, h₁) = >>=-eq-ok (suitable r only plugins q.descriptor) _ h in
      let (rest, above, h₂) = >>=-eq-ok (candidates r only plugins ps) _ h₁ in
      subst (Memb (selection_of r p.descriptor)) (ok-injective h₂)
        (further b rest (candidates_complete ps rest k p above m f))
    where
      further :
          (b : Bool) (rest : List ExecutionSelection)
          → Memb (selection_of r p.descriptor) rest
          → Memb
              (selection_of r p.descriptor)
              (if b then selection_of r q.descriptor ∷ rest else rest)
      further true rest m = there m
      further false rest m = m

  some_of-ok :
      (count : ℤ) (ranked chosen : List ExecutionSelection)
      → some_of r only plugins count ranked ≡ ok chosen
      → (take (pos_part count) ranked ≡ chosen) × (1 ≤ length ranked)
  some_of-ok count [] chosen h = cc
  some_of-ok count (s ∷ ss) chosen h = (ok-injective h, omega arith)

  -- The selections that `select` returns.
  pub record IsBest (count : ℤ) (chosen : List ExecutionSelection) : Type 0 where
    pub some_chosen : 1 ≤ length chosen
    pub few : pos (length chosen) ≤ℤ count
    pub choices : (s : ExecutionSelection) → Memb s chosen → IsChoice plugins s
    pub best :
        (k : Text) (p : ExecutorPlugin B)
        → Memb (k, p) plugins
        → Fits p.descriptor
        → ((s : ExecutionSelection) × Memb s chosen × (s.descriptor ≡ p.descriptor))
          ⊎ ((s : ExecutionSelection) → Memb s chosen → IsAhead s r p.descriptor)

  taken_or_first :
      (d : ExecutorDescriptor) (chosen : List ExecutionSelection)
      → Memb (selection_of r d) chosen
        ⊎ ((s : ExecutionSelection) → Memb s chosen → is_before s (selection_of r d) ≡ true)
      → ((s : ExecutionSelection) × Memb s chosen × (s.descriptor ≡ d))
        ⊎ ((s : ExecutionSelection) → Memb s chosen → IsAhead s r d)
  unfolding selection_of
  taken_or_first d chosen (inl m) = inl (selection_of r d, m, refl)
  taken_or_first d chosen (inr ahead) = inr λ s m. is_before-IsAhead s r d (ahead s m)

  -- What `select` returns: from one to `count` selections of registered executors that fit, each with
  -- the score that its executor is worth; and a registered executor that fits is among them, or each of
  -- them is worth more than it, or as much with an id that is not above its id. An executor fits if its
  -- provider is not excluded, it has every required capability and every required feature (headless,
  -- persistent sessions, structured output, control of effort), and its probe does not fail if only
  -- available ones are asked for.
  pub select-IsBest :
      (count : ℤ) (chosen : List ExecutionSelection)
      → select r only plugins count ≡ ok chosen
      → IsBest count chosen
  unfolding select rank_plugins
  select-IsBest count chosen h =
      let (_, checked, h₁) =
        >>=-eq-ok (raise_if (ltb_ℤ count (pos 1)) (value_error "count must be >= 1")) _ h in
      let (ranked, ranks, h₂) = >>=-eq-ok (rank_plugins r only plugins) _ h₁ in
      let (found, finds, h₃) = >>=-eq-ok (candidates r only plugins plugins) _ ranks in
      let sorts = ok-injective h₃ in
      let (taken, some_ranked) = some_of-ok count ranked chosen h₂ in
      let size = length-take (pos_part count) ranked in
      let same = ap length taken in
      record {
        some_chosen = ground arith;
        few = ground arith;
        choices = λ s m. candidates-IsChoice plugins found s finds (
            Memb-sorted s found (
              subst (Memb s) (sym sorts)
                (Memb-take (pos_part count) ranked (subst (Memb s) (sym taken) m))));
        best = λ k p m f. taken_or_first p.descriptor chosen (
            subst
              (λ (q : List ExecutionSelection).
                Memb (selection_of r p.descriptor) q
                ⊎ ((s : ExecutionSelection)
                    → Memb s q
                    → is_before s (selection_of r p.descriptor) ≡ true))
              taken
              (subst
                (λ (q : List ExecutionSelection).
                  Memb (selection_of r p.descriptor) (take (pos_part count) q)
                  ⊎ ((s : ExecutionSelection)
                      → Memb s (take (pos_part count) q)
                      → is_before s (selection_of r p.descriptor) ≡ true))
                sorts
                (taken_or_behind (pos_part count) (sorted found) (selection_of r p.descriptor)
                  (sorted-Ordered found)
                  (sorted-Memb _ found (candidates_complete plugins found k p finds m f)))));
      }
