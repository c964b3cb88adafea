-- ===== src/Evidence/Samples.antt =====
-- A report about two paths, read and checked.
use durable_threads.Prelude.{
  Text, lit, codes, ◌==◌, contains, lower, strip, rstrip, lstrip, is_space, starts_with,
  replace_char, split_on, nonblank, text_ltb, Bool, true, Option, none, some, List, [], ◌∷◌, any,
  all, keep, ◌≡◌, refl, ok, err, pos, if◌then◌else◌,
}
use durable_threads.Errors.{evidence_error, Res}
use durable_threads.Json.{get_field}
use durable_threads.Regex.{search_in, fullmatch}
use durable_threads.Registry.{executor_id_pattern}
use durable_threads.Evidence.{
  WorkerEvidence, validate_evidence, validate_paths, clean_paths, stripped, path_matches,
  check_provider, check_complete, check_actual, same_set, once, is_unsafe, slashes,
  unsuccessful_check,
}
use durable_threads.Evidence.Git.{git_changed_paths, path_set, insert_path, GitRun}
use durable_threads.Evidence.Report.{
  parse_worker_result, json_payload, first_payload, has_key, reversed, split_lines, text_evidence,
  line_value, token, section_values, section_lines, heading_of, json_candidates,
}
use durable_threads.Evidence.Safety.{IsSafe, validate_evidence-IsSafe}

unfoldable pub evidence : Unit {0}
unfolding validate_evidence validate_paths clean_paths stripped path_matches check_provider
    check_complete check_actual same_set once is_unsafe slashes unsuccessful_check
    executor_id_pattern search_in fullmatch parse_worker_result json_candidates json_payload
    first_payload has_key reversed split_lines text_evidence line_value token section_values
    section_lines heading_of git_changed_paths path_set insert_path get_field lit ◌==◌ contains
    lower strip rstrip lstrip is_space starts_with replace_char split_on nonblank text_ltb any all
    keep
evidence = tt

abbrev pub no_pattern : Text → Text → Bool
no_pattern path pattern = path == pattern

abbrev claimed : WorkerEvidence
claimed = record {
  status = codes "complete";
  provider = some (codes "codex");
  changed_paths = codes "src/a.py" ∷ codes " src\\b.py " ∷ codes "src/a.py" ∷ [];
  checks = codes "pytest passed" ∷ [];
  concerns = codes "None known" ∷ [];
}

abbrev valid : WorkerEvidence
valid = record claimed { changed_paths = codes "src/a.py" ∷ codes "src/b.py" ∷ [] }

abbrev tree : Option (List Text)
tree = some (codes "src/b.py" ∷ codes "src/a.py" ∷ [])

valid_report : validate_evidence no_pattern claimed (codes "src/" ∷ []) tree ≡ ok valid
unfolding evidence
valid_report = refl

escape_is_refused :
    validate_evidence no_pattern
      (record claimed { changed_paths = codes "src/../x" ∷ [] })
      (codes "src" ∷ [])
      none
    ≡ err (evidence_error "changed path is unsafe")
unfolding evidence
escape_is_refused = refl

validate_evidence-IsSafe_example : IsSafe no_pattern (codes "src/" ∷ []) tree claimed valid
validate_evidence-IsSafe_example =
    validate_evidence-IsSafe no_pattern claimed valid (codes "src/" ∷ []) tree valid_report

headed_report :
    parse_worker_result
      (λ t. ok none)
      (codes
        "Status: Complete\nProvider: codex\nChanged paths:\n- src/a.py\nChecks: pytest passed\nRemaining concerns:\n- None known\n")
    ≡ ok (record claimed { changed_paths = codes "src/a.py" ∷ [] })
unfolding evidence
headed_report = refl

abbrev answer : List Text → Res GitRun
answer args =
    if contains (codes "ls-files") args
    then ok (record { return_code = pos 0; stdout = codes "b.py\n" })
    else ok (record { return_code = pos 0; stdout = codes "c.py\na.py\n" })

tree_paths :
    git_changed_paths true answer none ≡ ok (codes "a.py" ∷ codes "b.py" ∷ codes "c.py" ∷ [])
unfolding evidence
tree_paths = refl
