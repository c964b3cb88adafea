-- ===== src/Packets.antt =====
-- src/durable_threads/packets.py: the bounded contract that a worker is handed.
pub mod Compact
pub mod Samples
use durable_threads.Prelude.{
  ℕ, Text, lit, codes, ◌==◌, strip, nonblank, Bool, true, false, not, ◌&&◌, ◌||◌, Option, none,
  some, List, [], ◌∷◌, ◌++◌, ℤ, pos, ok, err, ◌>>=◌, ◌>>◌, raise_if, if◌then◌else◌, length, ltb,
  traverse, is_space,
}
use durable_threads.Errors.{Error, Res, packet_error, is_value_error}
use durable_threads.Contracts.{is_empty}
use durable_threads.Risk.{Risk, RiskAssessment, validate_risk, classify_risk}
use durable_threads.Native.{WorkerConfig}
use durable_threads.Regex.{
  Regex, char, seq, star, word, one_of, optional, at_least, up_to, is_alnum, in_set, search_in,
  fullmatch,
}

abbrev token_char : ℕ → Bool
token_char c = is_alnum c || in_set (codes "_-") c

-- `_SECRET_MARKERS`.
unfoldable pub secret_markers : Regex
secret_markers = one_of (
    seq (word "sk-") (at_least 12 (char is_alnum))
    ∷ seq (word "xai-") (at_least 12 (char token_char))
    ∷ seq (word "gh")
        (seq (char (in_set (codes "pousrPOUSR"))) (seq (word "_") (at_least 12 (char token_char))))
    ∷ seq (word "github_pat_") (at_least 12 (char token_char))
    ∷ seq
        (one_of (
          word "OPENAI"
          ∷ word "ANTHROPIC"
          ∷ word "GITHUB"
          ∷ word "AWS"
          ∷ word "XAI"
          ∷ word "CURSOR"
          ∷ word "GROK"
          ∷ []))
        (seq (word "_") (
          seq (star (char (λ c. is_alnum c || in_set (codes "_") c))) (
            seq
              (one_of (
                seq (word "API") (seq (optional (word "_")) (word "KEY"))
                ∷ word "TOKEN"
                ∷ word "SECRET"
                ∷ []))
              (seq (star (char is_space)) (char (in_set (codes "=:")))))))
    ∷ [])

-- The pattern of a run id.
unfoldable pub run_id_pattern : Regex
run_id_pattern =
    seq (char is_alnum) (seq (char run_char) (seq (char run_char) (up_to 61 (char run_char))))
  where
    run_char : ℕ → Bool
    run_char c = is_alnum c || in_set (codes "._-") c

-- `_clean_text`.
unfoldable pub clean_text : ℕ → Text → Res Text
clean_text limit value = do
  raise_if (not (nonblank value)) (packet_error "must be a non-empty string")
  raise_if (ltb limit (length (strip value))) (packet_error "exceeds the compact packet limit")
  raise_if (search_in secret_markers (strip value))
      (packet_error "contains a credential-like value")
  ok (strip value)

-- `_clean_items`.
unfoldable pub clean_items : ℕ → List Text → Res (List Text)
clean_items limit = traverse (clean_text limit)

pub record DelegationPacket : Type 0 where
  pub schema_version : ℤ
  pub run_id : Text
  pub task_name : Text
  pub role : Text
  pub provider : Text
  pub objective : Text
  pub risk_class : Risk
  pub execution_class : Text
  pub decisions : List Text
  pub invariants : List Text
  pub non_goals : List Text
  pub allowed_paths : List Text
  pub acceptance : List Text
  pub constraints : List Text
  pub result_contract : List Text
  pub model_selector : Text
  pub reasoning_effort : Text
  pub max_followups : ℤ

abbrev pub as_packet_error {ℓ} : {A : Type ℓ} → Res A → Res A
as_packet_error (ok a) = ok a
as_packet_error (err e) = if is_value_error e then err (packet_error "risk class") else err e

unfoldable pub packet_risk : Text → (allowed_paths acceptance : List Text) → Option Text → Res Risk
packet_risk objective allowed_paths acceptance none = do
  found ← classify_risk objective allowed_paths acceptance none (lit "R1")
  ok found.risk_class
packet_risk objective allowed_paths acceptance (some []) = do
  found ← classify_risk objective allowed_paths acceptance none (lit "R1")
  ok found.risk_class
packet_risk objective allowed_paths acceptance (some (c ∷ t)) = validate_risk (c ∷ t)

-- The items of a packet, cleaned in the order of the source.
pub record PacketItems : Type 0 where
  pub allowed_paths : List Text
  pub acceptance : List Text
  pub constraints : List Text
  pub decisions : List Text
  pub invariants : List Text
  pub non_goals : List Text

unfoldable pub cleaned_items : PacketItems → Res PacketItems
cleaned_items items = do
  cleaned_paths ← clean_items 240 items.allowed_paths
  cleaned_acceptance ← clean_items 400 items.acceptance
  cleaned_constraints ← clean_items 400 items.constraints
  cleaned_decisions ← clean_items 500 items.decisions
  cleaned_invariants ← clean_items 500 items.invariants
  cleaned_non_goals ← clean_items 500 items.non_goals
  ok (record {
    allowed_paths = cleaned_paths;
    acceptance = cleaned_acceptance;
    constraints = cleaned_constraints;
    decisions = cleaned_decisions;
    invariants = cleaned_invariants;
    non_goals = cleaned_non_goals;
  })

-- The packet, with the texts of the worker cleaned.
unfoldable pub packet_of :
    WorkerConfig → (run_id objective : Text) → Risk → PacketItems → Res DelegationPacket
packet_of w run_id objective risk items = do
  task_name ← clean_text 120 w.name
  role ← clean_text 120 w.role
  provider ← clean_text 40 w.provider
  whole ← clean_text 4000 (objective ++ (lit " Purpose: " ++ w.purpose))
  execution_class ← clean_text 40 w.execution_class
  model_selector ← clean_text 120 w.model_selector
  reasoning_effort ← clean_text 20 w.reasoning_effort
  ok (record {
    schema_version = pos 2;
    run_id = run_id;
    task_name = task_name;
    role = role;
    provider = provider;
    objective = whole;
    risk_class = risk;
    execution_class = execution_class;
    decisions = items.decisions;
    invariants = items.invariants;
    non_goals = items.non_goals;
    allowed_paths = items.allowed_paths;
    acceptance = items.acceptance;
    constraints = items.constraints;
    result_contract =
        lit "Return changed paths."
        ∷ lit "Return exact checks and results."
        ∷ lit "Return remaining concerns or 'None known'."
        ∷ lit "Do not claim an unexecuted check passed."
        ∷ lit "Do not include secrets, private data, or a full transcript."
        ∷ [];
    model_selector = model_selector;
    reasoning_effort = reasoning_effort;
    max_followups = w.max_followups;
  })

unfoldable pub build_packet :
    WorkerConfig
    → (run_id objective : Text) → PacketItems
    → (risk_class : Option Text) → Res DelegationPacket
build_packet w run_id objective items risk_class = do
  raise_if (not (fullmatch run_id_pattern run_id))
      (packet_error "run_id must be 3-64 characters and use safe identifier characters")
  raise_if (is_empty items.allowed_paths) (packet_error "allowed_paths must not be empty")
  raise_if (is_empty items.acceptance) (packet_error "acceptance must not be empty")
  risk ← as_packet_error (packet_risk objective items.allowed_paths items.acceptance risk_class)
  cleaned ← cleaned_items items
  packet_of w run_id objective risk cleaned
