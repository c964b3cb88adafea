-- ===== src/Evidence.antt =====
-- src/durable_threads/evidence.py: the report of a worker, and the checks that it passes before its
-- work counts. `decode` is `json.loads`, none where it raises JSONDecodeError, and what else it
-- raises is raised on; `fnmatch` is `fnmatch.fnmatchcase`; `git` runs the git command with some
-- arguments in the repository.
pub mod Git
pub mod Report
pub mod Paths
pub mod Safety
pub mod Samples
use durable_threads.Prelude.{
  ℕ, Text, lit, codes, ◌==◌, contains, lower, strip, rstrip, lstrip, starts_with, replace_char,
  split_on, nonblank, Bool, true, false, not, ◌&&◌, ◌||◌, Option, none, some, List, [], ◌∷◌, ◌++◌,
  any, all, ok, err, ◌>>=◌, ◌>>◌, raise_if, if◌then◌else◌, nat_eq, map, keep, ℤ, pos, eq_ℤ,
}
use durable_threads.Errors.{Res, evidence_error}
use durable_threads.Contracts.{is_empty}
use durable_threads.Regex.{Regex, boundary, seq, one_of, word, search_in, fullmatch}
use durable_threads.Registry.{executor_id_pattern}

pub record WorkerEvidence : Type 0 where
  pub status : Text
  pub provider : Option Text
  pub changed_paths : List Text
  pub checks : List Text
  pub concerns : List Text

unfoldable pub unsuccessful_check : Regex
unsuccessful_check =
    seq boundary (seq (one_of (word "failed" ∷ word "skipped" ∷ word "not run" ∷ [])) boundary)

-- `\` becomes `/`.
unfoldable pub slashes : Text → Text
slashes = replace_char b'\\' b'/'

abbrev is_slash : ℕ → Bool
is_slash c = nat_eq c b'/'

-- `path == "" or path.startswith("/") or path == "." or ".." in path.split("/")`.
unfoldable pub is_unsafe : Text → Bool
is_unsafe path =
    path == []
    || starts_with path (codes "/")
    || path == codes "."
    || contains (codes "..") (split_on b'/' path)

-- `dict.fromkeys` of a list: each text once, in the order of its first place.
unfoldable pub once : List Text → List Text → List Text
once seen [] = seen
once seen (p ∷ ps) = once (if contains p seen then seen else seen ++ p ∷ []) ps

-- `set(xs) == set(ys)`.
unfoldable pub same_set : List Text → List Text → Bool
same_set xs ys = all (λ x. contains x ys) xs && all (λ y. contains y xs) ys

module _ (fnmatch : Text → Text → Bool) where
  -- `_path_matches`.
  unfoldable pub path_matches : Text → Text → Bool
  path_matches raw_path raw_allowed =
      let path = slashes raw_path in
      let allowed = rstrip is_slash (slashes raw_allowed) in
      path == allowed || starts_with path (allowed ++ codes "/") || fnmatch path allowed

  -- The loop of `_validate_paths`, with the paths that are clean up to here.
  unfoldable pub clean_paths : List Text → List Text → List Text → Res (List Text)
  clean_paths allowed clean [] = ok clean
  clean_paths allowed clean (raw_path ∷ rest) = do
    let path = strip (slashes raw_path)
    raise_if (is_unsafe path) (evidence_error "changed path is unsafe")
    raise_if (not (any (path_matches path) allowed))
        (evidence_error "changed path is outside the allowed paths")
    clean_paths allowed (if contains path clean then clean else clean ++ path ∷ []) rest

  -- The items of `allowed_paths` that are not blank, stripped.
  unfoldable pub stripped : List Text → List Text
  stripped items = map strip (keep nonblank items)

  -- `_validate_paths`.
  unfoldable pub validate_paths : List Text → List Text → Res (List Text)
  validate_paths paths allowed_paths = do
    raise_if (is_empty (stripped allowed_paths))
        (evidence_error "at least one allowed path is required")
    clean_paths (stripped allowed_paths) [] paths

  abbrev pub given : Option Text → Text
  given none = []
  given (some t) = t

  -- The demands on a report that says "complete".
  unfoldable pub check_complete : WorkerEvidence → Res (Unit {0})
  check_complete evidence =
      if evidence.status == lit "complete"
      then (do
        raise_if (is_empty evidence.checks)
            (evidence_error "complete worker result must include exact checks")
        raise_if (is_empty evidence.concerns)
            (evidence_error "complete worker result must declare remaining concerns")
        raise_if (any (search_in unsuccessful_check) evidence.checks)
            (evidence_error "complete result contains an unsuccessful check"))
      else ok tt

  abbrev pub actual_of : List Text → List Text
  actual_of paths = once [] (map (λ p. strip (slashes p)) (keep (λ p. not (is_empty p)) paths))

  -- The comparison with the working tree.
  unfoldable pub check_actual : List Text → List Text → Option (List Text) → Res (Unit {0})
  check_actual allowed_paths changed none = ok tt
  check_actual allowed_paths changed (some actual_paths) = do
    clean ← validate_paths (actual_of actual_paths) allowed_paths
    raise_if (not (same_set changed (actual_of actual_paths)))
        (evidence_error "worker paths do not match the actual diff")

  unfoldable pub check_provider : Option Text → Res (Unit {0})
  check_provider provider = do
    raise_if (is_empty (given provider)) (evidence_error "worker result must declare a provider")
    raise_if (not (fullmatch executor_id_pattern (given provider)))
        (evidence_error "worker result provider id is invalid")

  unfoldable pub validate_evidence :
      WorkerEvidence → List Text → Option (List Text) → Res WorkerEvidence
  validate_evidence evidence allowed_paths actual_paths = do
    check_provider evidence.provider
    changed ← validate_paths evidence.changed_paths allowed_paths
    check_complete evidence
    check_actual allowed_paths changed actual_paths
    ok (record evidence { changed_paths = changed })
