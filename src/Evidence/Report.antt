-- ===== src/Evidence/Report.antt =====
-- Reading a worker's report, as JSON or as headed text, and the paths that git reports.
use durable_threads.Prelude.{
  ℕ, suc, Text, lit, codes, ◌==◌, contains, lower, strip, lstrip, starts_with, is_space, nonblank,
  Bool, true, false, not, ◌&&◌, ◌||◌, Option, none, some, List, [], ◌∷◌, ◌++◌, ok, err, ◌>>=◌, ◌>>◌,
  raise_if, if◌then◌else◌, nat_eq, leb, keep, drop, length, is_some, or_else,
}
use durable_threads.Errors.{Res, evidence_error}
use durable_threads.Json.{Json, Items, Fields, str, arr, obj, nil, cons, get_field}
use durable_threads.Contracts.{is_empty}
use durable_threads.Evidence.{WorkerEvidence}

-- `str.splitlines`.
abbrev is_break : ℕ → Bool
is_break c =
    (leb 10 c && leb c 13)
    || (leb 28 c && leb c 30)
    || nat_eq c 0x85
    || nat_eq c 0x2028
    || nat_eq c 0x2029

abbrev add_head : ℕ → List Text → List Text
add_head c [] = (c ∷ []) ∷ []
add_head c (l ∷ ls) = (c ∷ l) ∷ ls

unfoldable pub split_lines : Text → List Text
split_lines [] = []
split_lines (c ∷ s) =
    let rest = split_lines s in
    if nat_eq c 13 && starts_with s (10 ∷ [])
    then rest
    else if is_break c
    then [] ∷ rest
    else add_head c rest

unfoldable pub reversed : List Text → List Text → List Text
reversed done [] = done
reversed done (l ∷ ls) = reversed (l ∷ done) ls

abbrev json_keys : List Text
json_keys =
    lit "status"
    ∷ lit "provider"
    ∷ lit "changedPaths"
    ∷ lit "changed_paths"
    ∷ lit "checks"
    ∷ lit "remainingConcerns"
    ∷ lit "remaining_concerns"
    ∷ lit "concerns"
    ∷ []

-- `_JSON_KEYS.intersection(candidate)`.
unfoldable pub has_key : List Text → Fields → Bool
has_key [] fs = false
has_key (k ∷ ks) fs = is_some (get_field k fs) || has_key ks fs

abbrev payload_of : Json → Option Fields
payload_of (obj fs) = if has_key json_keys fs then some fs else none
payload_of _ = none

-- The texts that are JSON.
unfoldable pub json_candidates : (Text → Res (Option Json)) → List Text → Res (List Json)
json_candidates decode [] = ok []
json_candidates decode (t ∷ ts) = do
  read ← decode t
  rest ← json_candidates decode ts
  ok (elim read [ some v ↦ v ∷ rest | none ↦ rest ])

-- The first of the candidates that is an object with a known key.
unfoldable pub first_payload : List Json → Option Fields
first_payload [] = none
first_payload (v ∷ vs) = elim (payload_of v) [ some fs ↦ some fs | none ↦ first_payload vs ]

-- `_json_payload`.
unfoldable pub json_payload : (Text → Res (Option Json)) → Text → Res (Option Fields)
json_payload decode text = do
  found ← json_candidates decode (reversed [] (split_lines text) ++ text ∷ [])
  ok (first_payload found)

unfoldable pub item_values : Items → Res (List Text)
item_values nil = ok []
item_values (cons (str t) vs) = do
  raise_if (not (nonblank t)) (evidence_error "must be an array of nonempty strings")
  rest ← item_values vs
  ok (strip t ∷ rest)
item_values (cons _ vs) = err (evidence_error "must be an array of nonempty strings")

-- `_json_values`.
unfoldable pub json_values : Option Json → Res (List Text)
json_values (some (arr vs)) = item_values vs
json_values _ = err (evidence_error "must be an array of nonempty strings")

abbrev either_field : Option Json → Option Json → Option Json
either_field (some v) other = some v
either_field none other = other

abbrev headings : List Text
headings =
    lit "Status"
    ∷ lit "Provider"
    ∷ lit "Changed paths"
    ∷ lit "Checks"
    ∷ lit "Remaining concerns"
    ∷ []

-- `_HEADINGS.match` of a stripped line: the heading, and the text behind its colon, stripped.
unfoldable pub heading_of : List Text → Text → Option (Text × Text)
heading_of [] line = none
heading_of (h ∷ hs) line =
    if starts_with (lower line) (lower h ++ codes ":")
    then some (h, strip (drop (suc (length h)) line))
    else heading_of hs line

abbrev is_bullet : ℕ → Bool
is_bullet c = nat_eq c b'-' || nat_eq c 32

unfoldable pub section_lines : Text → Bool → List Text → List Text
section_lines heading active [] = []
section_lines heading active (line ∷ rest) = elim (heading_of headings (strip line)) [
  | some (h, value) ↦
      let now_active = lower h == lower heading in
      let later = section_lines heading now_active rest in
      if now_active && nonblank value then lstrip is_bullet value ∷ later else later
  | none ↦
      let later = section_lines heading active rest in
      if active && nonblank line then strip (lstrip is_bullet (strip line)) ∷ later else later
]

-- `_section_values`.
unfoldable pub section_values : Text → Text → List Text
section_values text heading =
    keep (λ v. not (is_empty v)) (section_lines heading false (split_lines text))

unfoldable pub token : Text → Text
token [] = []
token (c ∷ s) = let rest = token s in if is_space c then [] else c ∷ rest

abbrev token_after : ℕ → Text → Option Text
token_after n s = elim (token (lstrip is_space (drop n s))) [ [] ↦ none | c ∷ t ↦ some (c ∷ t) ]

abbrev here_value : Text → Text → Option Text
here_value name s = if starts_with (lower s) name then token_after (length name) s else none

-- `re.search(r"^Name:\s*(\S+)")` with MULTILINE, from a text whose start is the start of a line or not.
unfoldable pub line_value : Text → Bool → Text → Option Text
line_value name starts [] = none
line_value name starts (c ∷ s) =
    let later = line_value name (nat_eq c 10) s in
    if starts then (elim (here_value name (c ∷ s)) [ some t ↦ some t | none ↦ later ]) else later

abbrev status_text : Option Json → Text
status_text (some (str t)) = lower (strip t)
status_text _ = []

abbrev provider_text : Option Json → Option Text
provider_text (some (str t)) = some (strip t)
provider_text _ = none

unfoldable pub json_evidence : Fields → Res WorkerEvidence
json_evidence payload = do
  changed ← json_values (
      either_field (get_field (lit "changedPaths") payload)
        (get_field (lit "changed_paths") payload))
  checks ← json_values (get_field (lit "checks") payload)
  concerns ← json_values (
      either_field (get_field (lit "remainingConcerns") payload) (
        either_field (get_field (lit "remaining_concerns") payload)
          (get_field (lit "concerns") payload)))
  ok (record {
    status = status_text (get_field (lit "status") payload);
    provider = provider_text (get_field (lit "provider") payload);
    changed_paths = changed;
    checks = checks;
    concerns = if is_empty concerns then lit "None known" ∷ [] else concerns;
  })

unfoldable pub text_evidence : Text → WorkerEvidence
text_evidence text = record {
  status = lower (or_else (line_value (lit "status:") true text) []);
  provider = line_value (lit "provider:") true text;
  changed_paths = section_values text (lit "Changed paths");
  checks = section_values text (lit "Checks");
  concerns = section_values text (lit "Remaining concerns");
}

abbrev pub statuses : List Text
statuses = lit "complete" ∷ lit "blocked" ∷ lit "failed" ∷ []

abbrev pub evidence_of : Text → Option Fields → Res WorkerEvidence
evidence_of text (some payload) = json_evidence payload
evidence_of text none = ok (text_evidence text)

-- `str` of a status that is no string is none of the statuses, and so is the empty text.
unfoldable pub parse_worker_result : (Text → Res (Option Json)) → Text → Res WorkerEvidence
parse_worker_result decode text = do
  raise_if (not (nonblank text)) (evidence_error "worker result is empty")
  payload ← json_payload decode text
  evidence ← evidence_of text payload
  raise_if (not (contains evidence.status statuses))
      (evidence_error "worker result must declare status: complete, blocked, or failed")
  ok evidence
