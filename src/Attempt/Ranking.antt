-- ===== src/Attempt/Ranking.antt =====
-- The attempt that `max` picks, and the effort ladder.
use durable_threads.Prelude.{
  ◌≤ℤ◌, true, false, List, [], ◌∷◌, ◌≡◌, refl, ◌⊎◌, inl, inr, arith, Bool-cases, Memb, here, there,
}
use durable_threads.Contracts.{AttemptResult}
use durable_threads.Attempt.{Rank, attempt_rank, rank_lt, best_of}

rank_lt_irrefl : (a : Rank) → rank_lt a a ≡ false
unfolding rank_lt
rank_lt_irrefl a = ground arith

-- `not (a < b)` is an order, since `<` is a linear one.
rank_le_trans : (a b c : Rank) → rank_lt a b ≡ false → rank_lt b c ≡ false → rank_lt a c ≡ false
unfolding rank_lt
rank_le_trans a b c h k = ground arith

rank_lt_asym : (a b : Rank) → rank_lt a b ≡ true → rank_lt b a ≡ false
unfolding rank_lt
rank_lt_asym a b h = ground arith

drop_second :
    {a b c : AttemptResult} {rest : List AttemptResult} → Memb c (a ∷ rest) → Memb c (a ∷ b ∷ rest)
drop_second (here e) = here e
drop_second (there m) = there (there m)

-- The attempt that `max` returns is one of the attempts.
pub best_of-Memb :
    (a : AttemptResult) (rest : List AttemptResult) → Memb (best_of a rest) (a ∷ rest)
unfolding best_of
best_of-Memb a [] = here refl
best_of-Memb a (b ∷ rest) = elim (Bool-cases (rank_lt (attempt_rank a) (attempt_rank b))) [
  | inl above ↦ rw above (there (best_of-Memb b rest))
  | inr below ↦ rw below (drop_second (best_of-Memb a rest))
]

abbrev IsAbove : AttemptResult → AttemptResult → Type 0
IsAbove best c = rank_lt (attempt_rank best) (attempt_rank c) ≡ false

-- `x` is the higher of `x` and `y`, and `best` is above the list that starts with `x`.
IsAbove-all :
    (best x y c : AttemptResult) (rest : List AttemptResult)
    → ((d : AttemptResult) → Memb d (x ∷ rest) → IsAbove best d)
    → IsAbove x y
    → (c ≡ x) ⊎ (c ≡ y) ⊎ Memb c rest
    → IsAbove best c
IsAbove-all best x y c rest all h (inl e) = rw e (all _ (here refl))
IsAbove-all best x y c rest all h (inr (inl e)) = rw e (rank_le_trans _ _ _ (all _ (here refl)) h)
IsAbove-all best x y c rest all h (inr (inr m)) = all _ (there m)

either_head :
    {a b c : AttemptResult} {rest : List AttemptResult}
    → Memb c (a ∷ b ∷ rest)
    → (c ≡ a) ⊎ (c ≡ b) ⊎ Memb c rest
either_head (here e) = inl e
either_head (there (here e)) = inr (inl e)
either_head (there (there m)) = inr (inr m)

swap_head :
    {a b c : AttemptResult} {rest : List AttemptResult}
    → Memb c (a ∷ b ∷ rest)
    → (c ≡ b) ⊎ (c ≡ a) ⊎ Memb c rest
swap_head (here e) = inr (inl e)
swap_head (there (here e)) = inl e
swap_head (there (there m)) = inr (inr m)

-- No attempt among those of a round ranks above the one that `max` returns.
best_of_max :
    (a : AttemptResult) (rest : List AttemptResult) (c : AttemptResult)
    → Memb c (a ∷ rest)
    → rank_lt (attempt_rank (best_of a rest)) (attempt_rank c) ≡ false
unfolding best_of
best_of_max a [] c (here e) = rw e (rank_lt_irrefl (attempt_rank a))
best_of_max a [] c (there m) = elim m [ ]
best_of_max a (b ∷ rest) c m = elim (Bool-cases (rank_lt (attempt_rank a) (attempt_rank b))) [
  | inl above ↦
      rw above
        (IsAbove-all _ b a c rest (best_of_max b rest) (rank_lt_asym _ _ above) (swap_head m))
  | inr below ↦ rw below (IsAbove-all _ a b c rest (best_of_max a rest) below (either_head m))
]

-- Whether `best` is at least as good as `c`: acceptance decides first, then readiness, then the
-- probability that the work is complete, then the probability that the evidence is enough.
pub record IsHighest (best c : AttemptResult) : Type 0 where
  pub accepted : c.accepted ≡ true → best.accepted ≡ true
  pub ready :
      c.accepted ≡ best.accepted
      → c.result_assessment.integration_ready ≡ true
      → best.result_assessment.integration_ready ≡ true
  pub complete :
      c.accepted ≡ best.accepted
      → c.result_assessment.integration_ready ≡ best.result_assessment.integration_ready
      → c.result_assessment.semantic_complete_probability
        ≤ℤ best.result_assessment.semantic_complete_probability
  pub evidence :
      c.accepted ≡ best.accepted
      → c.result_assessment.integration_ready ≡ best.result_assessment.integration_ready
      → c.result_assessment.semantic_complete_probability
        ≡ best.result_assessment.semantic_complete_probability
      → c.result_assessment.evidence_sufficient_probability
        ≤ℤ best.result_assessment.evidence_sufficient_probability

IsAbove-IsHighest : (best c : AttemptResult) → IsAbove best c → IsHighest best c
unfolding rank_lt attempt_rank
IsAbove-IsHighest best c h = record {
  accepted = λ e. ground arith;
  ready = λ e f. ground arith;
  complete = λ e f. ground arith;
  evidence = λ e f g. ground arith;
}

-- No attempt among those of a round is accepted if the one that `max` returns is not. Of the attempts
-- that agree with it on that, none is ready for integration if it is not. Of those that agree on both,
-- none is complete with a higher probability, and of those that agree on that too, none has enough
-- evidence with a higher one.
pub best_of-IsHighest :
    (a : AttemptResult) (rest : List AttemptResult) (c : AttemptResult)
    → Memb c (a ∷ rest)
    → IsHighest (best_of a rest) c
best_of-IsHighest a rest c m = IsAbove-IsHighest _ c (best_of_max a rest c m)
