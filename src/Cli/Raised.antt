-- ===== src/Cli/Raised.antt =====
-- The exceptions of the reading and the validation of evidence, as far as `_dispatch` of
-- src/durable_threads/cli.py catches them.
use durable_threads.Providers.Output.{first_in, extract_session_id, extract_usage}
use durable_threads.Prelude.{
  Text, contains, Bool, true, Option, none, some, List, [], ◌∷◌, ◌++◌, ◌≡◌, refl, arith, ok, err,
  ◌>>=◌, raise_if, if◌then◌else◌, strip, not, nonblank, lit,
}
use durable_threads.Errors.{Res, evidence_error}
use durable_threads.Json.{Json, Items, Fields, null, bool, int, float, str, arr, obj, nil, cons}
use durable_threads.Evidence.{
  WorkerEvidence, validate_evidence, clean_paths, validate_paths, check_complete, check_actual,
  check_provider, slashes, stripped, actual_of,
}
use durable_threads.Evidence.Git.{GitRun, git_changed_paths, base_args}
use durable_threads.Evidence.Report.{
  parse_worker_result, item_values, json_values, json_evidence, json_payload, evidence_of,
  json_candidates,
}
use durable_threads.Cli.Args.{is_caught}

-- A call whose exceptions the handler catches.
abbrev pub handled {ℓ} : {A : Type ℓ} → Res A → Bool
handled (ok a) = true
handled (err e) = is_caught e

pub handled-bind {ℓ μ} :
    {A : Type ℓ} {B : Type μ} (r : Res A) (f : A → Res B)
    → handled r ≡ true
    → ((a : A) → handled (f a) ≡ true)
    → handled (r >>= f) ≡ true
handled-bind (ok a) f h k = k a
handled-bind (err e) f h k = h

item_values-handled : (vs : Items) → handled (item_values vs) ≡ true
unfolding item_values is_caught
item_values-handled nil = refl
item_values-handled (cons (str t) vs) = ground (arith, item_values-handled vs)
item_values-handled (cons null vs) = refl
item_values-handled (cons (bool b) vs) = refl
item_values-handled (cons (int z) vs) = refl
item_values-handled (cons (float z) vs) = refl
item_values-handled (cons (arr us) vs) = refl
item_values-handled (cons (obj fs) vs) = refl

json_values-handled : (v : Option Json) → handled (json_values v) ≡ true
unfolding json_values is_caught
json_values-handled (some (arr vs)) = item_values-handled vs
json_values-handled none = refl
json_values-handled (some null) = refl
json_values-handled (some (bool b)) = refl
json_values-handled (some (int z)) = refl
json_values-handled (some (float z)) = refl
json_values-handled (some (str t)) = refl
json_values-handled (some (obj fs)) = refl

evidence_of-handled : (text : Text) (o : Option Fields) → handled (evidence_of text o) ≡ true
unfolding json_evidence
evidence_of-handled text none = refl
evidence_of-handled text (some payload) =
    handled-bind (json_values _) _ (json_values-handled _) (λ changed.
      handled-bind (json_values _) _ (json_values-handled _)
        (λ checks. handled-bind (json_values _) _ (json_values-handled _) (λ concerns. refl)))

module _ (decode : Text → Res (Option Json)) (loads : (t : Text) → handled (decode t) ≡ true) where
  first_in-handled {ℓ} :
      {A : Type ℓ} (find : Json → Option A) (ts : List Text)
      → handled (first_in decode find ts) ≡ true
  unfolding first_in
  first_in-handled find [] = refl
  first_in-handled {A = A} find (t ∷ ts) =
      handled-bind (decode t) _ (loads t) (λ v. read v (first_in-handled find ts))
    where
      found :
          (o : Option A)
          → handled (first_in decode find ts) ≡ true
          → handled (elim o [ some a ↦ ok (some a) | none ↦ first_in decode find ts ]) ≡ true
      found none rest = rest
      found (some a) rest = refl

      read :
          (v : Option Json)
          → handled (first_in decode find ts) ≡ true
          → handled (elim v [
            | some v ↦ elim (find v) [ some a ↦ ok (some a) | none ↦ first_in decode find ts ]
            | none ↦ first_in decode find ts
          ])
            ≡ true
      read none rest = rest
      read (some v) rest = found (find v) rest

  pub extract_session_id-handled :
      (output : Text) → handled (extract_session_id decode output) ≡ true
  unfolding extract_session_id
  extract_session_id-handled output = first_in-handled _ _

  pub extract_usage-handled : (output : Text) → handled (extract_usage decode output) ≡ true
  unfolding extract_usage
  extract_usage-handled output = first_in-handled _ _

  json_candidates-handled : (ts : List Text) → handled (json_candidates decode ts) ≡ true
  unfolding json_candidates
  json_candidates-handled [] = refl
  json_candidates-handled (t ∷ ts) =
      handled-bind (decode t) _ (loads t)
        (λ v. handled-bind (json_candidates decode ts) _ (json_candidates-handled ts) (λ vs. refl))

  json_payload-handled : (text : Text) → handled (json_payload decode text) ≡ true
  unfolding json_payload
  json_payload-handled text =
      handled-bind (json_candidates decode _) _ (json_candidates-handled _) (λ vs. refl)

  pub parse_worker_result-handled : (text : Text) → handled (parse_worker_result decode text) ≡ true
  unfolding parse_worker_result is_caught
  parse_worker_result-handled text =
      handled-bind (raise_if (not (nonblank text)) (evidence_error "worker result is empty")) _
        (ground arith)
        (λ u. handled-bind (json_payload decode text) _ (json_payload-handled text) (λ payload.
          handled-bind (evidence_of text payload) _ (evidence_of-handled text payload)
            (λ evidence. ground arith)))

pub git_changed_paths-handled :
    (is_dir : Bool) (git : List Text → Res GitRun) (base_ref : Option Text)
    → ((argv : List Text) → handled (git argv) ≡ true)
    → handled (git_changed_paths is_dir git base_ref) ≡ true
unfolding git_changed_paths is_caught
git_changed_paths-handled is_dir git base_ref starts =
    let diff = starts (lit "diff" ∷ lit "--name-only" ∷ lit "--no-renames" ∷ base_args base_ref) in
    let staged =
      starts (lit "diff" ∷ lit "--cached" ∷ lit "--name-only" ∷ lit "--no-renames" ∷ []) in
    let untracked = starts (lit "ls-files" ∷ lit "--others" ∷ lit "--exclude-standard" ∷ []) in
    ground arith

module _ (fnmatch : Text → Text → Bool) where
  clean_paths-handled :
      (allowed clean paths : List Text) → handled (clean_paths fnmatch allowed clean paths) ≡ true
  unfolding clean_paths is_caught
  clean_paths-handled allowed clean [] = refl
  clean_paths-handled allowed clean (raw ∷ rest) =
      let path = strip (slashes raw) in
      ground (
        arith,
        clean_paths-handled allowed (if contains path clean then clean else clean ++ path ∷ [])
            rest,
      )

  validate_paths-handled :
      (paths allowed : List Text) → handled (validate_paths fnmatch paths allowed) ≡ true
  unfolding validate_paths is_caught
  validate_paths-handled paths allowed =
      ground (arith, clean_paths-handled (stripped fnmatch allowed) [] paths)

  check_provider-handled :
      (provider : Option Text) → handled (check_provider fnmatch provider) ≡ true
  unfolding check_provider is_caught
  check_provider-handled provider = ground arith

  check_complete-handled : (e : WorkerEvidence) → handled (check_complete fnmatch e) ≡ true
  unfolding check_complete is_caught
  check_complete-handled e = ground arith

  check_actual-handled :
      (allowed changed : List Text) (o : Option (List Text))
      → handled (check_actual fnmatch allowed changed o) ≡ true
  unfolding check_actual is_caught
  check_actual-handled allowed changed none = refl
  check_actual-handled allowed changed (some paths) =
      ground (arith, validate_paths-handled (actual_of fnmatch paths) allowed)

  pub validate_evidence-handled :
      (e : WorkerEvidence) (allowed : List Text) (o : Option (List Text))
      → handled (validate_evidence fnmatch e allowed o) ≡ true
  unfolding validate_evidence
  validate_evidence-handled e allowed o =
      handled-bind (check_provider fnmatch e.provider) _ (check_provider-handled e.provider) (λ u.
        handled-bind (validate_paths fnmatch e.changed_paths allowed) _
          (validate_paths-handled e.changed_paths allowed)
          (λ changed. handled-bind (check_complete fnmatch e) _ (check_complete-handled e) (λ v.
            handled-bind (check_actual fnmatch allowed changed o) _
              (check_actual-handled allowed changed o) (λ w. refl))))
