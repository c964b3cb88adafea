-- ===== src/Evidence/Git.antt =====
-- `git_changed_paths` of src/durable_threads/evidence.py: the paths that git reports.
use durable_threads.Evidence.Report.{split_lines}
use durable_threads.Prelude.{
  Text, lit, codes, ◌==◌, strip, starts_with, nonblank, text_ltb, Bool, false, not, Option, none,
  some, List, [], ◌∷◌, ◌++◌, ok, ◌>>◌, raise_if, if◌then◌else◌, ℤ, pos, eq_ℤ, ◌>>=◌,
}
use durable_threads.Errors.{Res, evidence_error}
use durable_threads.Evidence.{slashes}

-- What a finished git command leaves. A command that cannot be started raises OSError, and one whose
-- output is no text UnicodeDecodeError; both are raised on.
pub record GitRun : Type 0 where
  pub return_code : ℤ
  pub stdout : Text

unfoldable pub insert_path : Text → List Text → List Text
insert_path p [] = p ∷ []
insert_path p (q ∷ qs) =
    let rest = insert_path p qs in
    if p == q then q ∷ qs else if text_ltb p q then p ∷ (q ∷ qs) else q ∷ rest

-- `sorted` of the set of the lines that are not blank.
unfoldable pub path_set : List Text → List Text
path_set [] = []
path_set (line ∷ rest) =
    let paths = path_set rest in
    if nonblank line then insert_path (slashes (strip line)) paths else paths

abbrev pub base_args : Option Text → List Text
base_args none = lit "HEAD" ∷ lit "--" ∷ []
base_args (some []) = lit "HEAD" ∷ lit "--" ∷ []
base_args (some (c ∷ t)) = (c ∷ t) ∷ lit "--" ∷ []

abbrev is_option : Option Text → Bool
is_option none = false
is_option (some t) = starts_with t (codes "-")

abbrev git_failed : GitRun → Bool
git_failed r = not (eq_ℤ r.return_code (pos 0))

unfoldable pub git_changed_paths :
    (is_dir : Bool) → (List Text → Res GitRun) → Option Text → Res (List Text)
git_changed_paths is_dir git base_ref = do
  raise_if (not is_dir) (evidence_error "repository not found")
  raise_if (is_option base_ref) (evidence_error "base ref must not be an option")
  diff ← git (lit "diff" ∷ lit "--name-only" ∷ lit "--no-renames" ∷ base_args base_ref)
  raise_if (git_failed diff) (evidence_error "could not inspect the git diff")
  staged ← git (lit "diff" ∷ lit "--cached" ∷ lit "--name-only" ∷ lit "--no-renames" ∷ [])
  raise_if (git_failed staged) (evidence_error "could not inspect the staged diff")
  untracked ← git (lit "ls-files" ∷ lit "--others" ∷ lit "--exclude-standard" ∷ [])
  raise_if (git_failed untracked) (evidence_error "could not inspect untracked files")
  ok (
      path_set
        (split_lines diff.stdout ++ (split_lines staged.stdout ++ split_lines untracked.stdout)))
