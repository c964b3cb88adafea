-- ===== src/Evidence/Safety.antt =====
-- The reports that `validate_evidence` of src/durable_threads/evidence.py returns.
use durable_threads.Prelude.{
  Text, lit, ==_iff, strip, Bool, true, false, Option, none, some, List, [], any, ◌≡◌, refl, ◌↔◌,
  ok, >>=-eq-ok, ok-injective, raise_if, Memb, subst, arith,
}
use durable_threads.Errors.{evidence_error}
use durable_threads.Contracts.{is_empty}
use durable_threads.Regex.{fullmatch, search_in}
use durable_threads.Registry.{executor_id_pattern}
use durable_threads.Evidence.{
  WorkerEvidence, slashes, clean_paths, validate_paths, stripped, same_set, check_complete,
  check_actual, check_provider, actual_of, validate_evidence, unsuccessful_check, given,
}
use durable_threads.Evidence.Paths.{IsClean, clean_paths-IsClean, Memb-clean_paths, same_set-Memb}

module _ (fnmatch : Text → Text → Bool) where
  validate_paths-ok :
      (paths allowed out : List Text)
      → validate_paths fnmatch paths allowed ≡ ok out
      → clean_paths fnmatch (stripped fnmatch allowed) [] paths ≡ ok out
  unfolding validate_paths
  validate_paths-ok paths allowed out h =
      let (_, _, h₁) =
        >>=-eq-ok
          (raise_if (is_empty (stripped fnmatch allowed))
            (evidence_error "at least one allowed path is required"))
          _ h in
      h₁

  -- The demands on a report, field by field.
  pub record IsSafe (allowed_paths : List Text) (actual_paths : Option (List Text))
      (claimed valid : WorkerEvidence) : Type 0 where
    pub clean :
        (p : Text) → Memb p valid.changed_paths → IsClean fnmatch (stripped fnmatch allowed_paths) p
    pub every :
        (raw : Text)
        → Memb raw claimed.changed_paths
        → Memb (strip (slashes raw)) valid.changed_paths
    pub provider : fullmatch executor_id_pattern (given fnmatch valid.provider) ≡ true
    pub checked : valid.status ≡ lit "complete" → is_empty valid.checks ≡ false
    pub passed :
        valid.status ≡ lit "complete" → any (search_in unsuccessful_check) valid.checks ≡ false
    pub exact :
        (paths : List Text)
        → actual_paths ≡ some paths
        → (p : Text) → Memb p valid.changed_paths ↔ Memb p (actual_of fnmatch paths)
    pub status : valid.status ≡ claimed.status

  check_complete-ok :
      (e : WorkerEvidence)
      → check_complete fnmatch e ≡ ok tt
      → e.status ≡ lit "complete"
      → (is_empty e.checks ≡ false) × (any (search_in unsuccessful_check) e.checks ≡ false)
  unfolding check_complete
  check_complete-ok e h s =
      let q = (==_iff e.status (lit "complete")).1 s in (ground arith, ground arith)

  check_actual-ok :
      (allowed changed : List Text) (actual paths : Option (List Text)) (ps : List Text)
      → check_actual fnmatch allowed changed actual ≡ ok tt
      → actual ≡ some ps
      → same_set changed (actual_of fnmatch ps) ≡ true
  unfolding check_actual
  check_actual-ok allowed changed none paths ps h e = absurd cc
  check_actual-ok allowed changed (some qs) paths ps h e =
      let (_, _, h₁) = >>=-eq-ok (validate_paths fnmatch (actual_of fnmatch qs) allowed) _ h in
      let same = same_text e in
      subst (λ (q : List Text). same_set changed (actual_of fnmatch q) ≡ true) same (ground arith)
    where
      same_text : some qs ≡ some ps → qs ≡ ps
      same_text k = cc

  -- In a report that `validate_evidence` returns every changed path is relative, has no `..` component
  -- and matches an allowed path, and every claimed path is there; the provider has the form of an id; a
  -- complete report has checks, none of which says failed, skipped or not run; and where the changes of
  -- the working tree are given, the paths are exactly those.
  pub validate_evidence-IsSafe :
      (claimed valid : WorkerEvidence) (allowed_paths : List Text)
      (actual_paths : Option (List Text))
      → validate_evidence fnmatch claimed allowed_paths actual_paths ≡ ok valid
      → IsSafe allowed_paths actual_paths claimed valid
  unfolding validate_evidence
  validate_evidence-IsSafe claimed valid allowed_paths actual_paths h =
      let (_, provided, h₁) = >>=-eq-ok (check_provider fnmatch claimed.provider) _ h in
      let (changed, valid_paths, h₂) =
        >>=-eq-ok (validate_paths fnmatch claimed.changed_paths allowed_paths) _ h₁ in
      let (_, completed, h₃) = >>=-eq-ok (check_complete fnmatch claimed) _ h₂ in
      let (_, compared, h₄) =
        >>=-eq-ok (check_actual fnmatch allowed_paths changed actual_paths) _ h₃ in
      let cleaned = validate_paths-ok claimed.changed_paths allowed_paths changed valid_paths in
      subst (IsSafe allowed_paths actual_paths claimed) (ok-injective h₄) (record {
        clean =
            clean_paths-IsClean fnmatch (stripped fnmatch allowed_paths) [] claimed.changed_paths
              changed cleaned (λ p m. elim m [ ]);
        every =
            (Memb-clean_paths fnmatch (stripped fnmatch allowed_paths) [] claimed.changed_paths
              changed cleaned).1;
        provider = unfold check_provider in ground arith;
        checked = λ s. (check_complete-ok claimed completed s).0;
        passed = λ s. (check_complete-ok claimed completed s).1;
        exact = λ paths e p.
            same_set-Memb changed (actual_of fnmatch paths) p
              (check_actual-ok allowed_paths changed actual_paths none paths compared e);
        status = refl;
      })
