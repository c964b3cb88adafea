-- ===== src/Risk.antt =====
-- src/durable_threads/risk.py: the risk classes, their order, and the classifier over task text.
-- A class that has passed `validate_risk` is a value of `Risk`; `label` is its string.
pub mod Signals
pub mod Samples
use durable_threads.Prelude.{
  ℕ, Text, String, lit, codes, ◌==◌, upper, strip, starts_with, nonblank, join, Bool, true, false,
  not, ◌&&◌, ◌||◌, Option, none, some, List, [], ◌∷◌, ◌++◌, map, leb, if◌then◌else◌, any, keep, ok,
  err, ◌>>=◌,
}
use durable_threads.Errors.{Res, value_error}
use durable_threads.Regex.{
  Regex, char, boundary, seq, star, is_word, word, one_of, search_in, in_set,
}

pub data Risk : Type 0 where
  r0 r1 r2 r3 r4 : Risk

-- `_RISK_RANK`: the index in RISK_LEVELS.
unfoldable pub rank : Risk → ℕ
rank r0 = 0
rank r1 = 1
rank r2 = 2
rank r3 = 3
rank r4 = 4

unfoldable pub label : Risk → Text
label r0 = lit "R0"
label r1 = lit "R1"
label r2 = lit "R2"
label r3 = lit "R3"
label r4 = lit "R4"

-- Membership in RISK_LEVELS, as the class that has this string.
unfoldable pub parse_label : Text → Option Risk
parse_label t =
    if t == label r0
    then some r0
    else if t == label r1
    then some r1
    else if t == label r2
    then some r2
    else if t == label r3
    then some r3
    else if t == label r4
    then some r4
    else none

unfoldable pub validate_risk : Text → Res Risk
validate_risk value = elim (parse_label (strip (upper value))) [
  | some risk ↦ ok risk
  | none ↦ err (value_error "risk must be one of")
]

-- `meets_threshold` of two classes that are valid.
unfoldable pub meets : Risk → Risk → Bool
unfolding rank
meets risk threshold = leb (rank threshold) (rank risk)

unfoldable pub meets_threshold : Text → Text → Res Bool
meets_threshold risk threshold = do
  r ← validate_risk risk
  t ← validate_risk threshold
  ok (meets r t)

-- `\b(a|b|...)\b` and `\b(a|b|...)\w*\b`.
abbrev pub whole : List Regex → Regex
whole ws = seq boundary (seq (one_of ws) boundary)

abbrev pub prefixed : List Regex → Regex
prefixed ws = seq boundary (seq (one_of ws) (seq (star (char is_word)) boundary))

-- `[- ]`.
abbrev gap : Regex
gap = char (in_set (codes "- "))

unfoldable pub systemic_signal : Regex
systemic_signal = whole (
    word "architecture"
    ∷ word "architectural"
    ∷ word "distributed"
    ∷ seq (word "multi") (seq gap (word "region"))
    ∷ word "consensus"
    ∷ word "disaster recovery"
    ∷ seq (word "cross") (seq gap (word "service"))
    ∷ word "systemic"
    ∷ word "platform migration"
    ∷ word "control plane"
    ∷ word "data plane"
    ∷ [])

unfoldable pub critical_signal : Regex
critical_signal = prefixed (
    word "auth"
    ∷ word "authentication"
    ∷ word "authorization"
    ∷ word "permission"
    ∷ word "payment"
    ∷ word "billing"
    ∷ word "crypto"
    ∷ word "cryptograph"
    ∷ word "secret"
    ∷ word "credential"
    ∷ word "privacy"
    ∷ word "pii"
    ∷ word "production"
    ∷ word "database migration"
    ∷ word "schema migration"
    ∷ word "delete data"
    ∷ word "destructive"
    ∷ word "concurren"
    ∷ word "race condition"
    ∷ word "locking"
    ∷ word "idempotency"
    ∷ word "security"
    ∷ word "vulnerab"
    ∷ [])

unfoldable pub contract_signal : Regex
contract_signal = prefixed (
    word "api"
    ∷ word "integration"
    ∷ word "webhook"
    ∷ word "queue"
    ∷ word "cache"
    ∷ word "database"
    ∷ word "schema"
    ∷ word "migration"
    ∷ seq (word "cross") (seq gap (word "module"))
    ∷ word "multiple modules"
    ∷ word "public contract"
    ∷ word "backward compat"
    ∷ word "dependency upgrade"
    ∷ word "release"
    ∷ [])

unfoldable pub mechanical_signal : Regex
mechanical_signal = whole (
    word "typo"
    ∷ word "spelling"
    ∷ word "formatting"
    ∷ word "comment"
    ∷ word "comments"
    ∷ word "readme"
    ∷ word "documentation"
    ∷ word "docs only"
    ∷ word "rename only"
    ∷ [])

unfoldable pub change_signal : Regex
change_signal = whole (
    word "add"
    ∷ word "build"
    ∷ word "change"
    ∷ word "create"
    ∷ word "debug"
    ∷ word "fix"
    ∷ word "implement"
    ∷ word "migrate"
    ∷ word "modify"
    ∷ word "refactor"
    ∷ word "remove"
    ∷ word "repair"
    ∷ word "update"
    ∷ [])

pub record RiskAssessment : Type 0 where
  pub risk_class : Risk
  pub reasons : List Text
  pub explicit : Bool

-- `" ".join(item.strip() for item in items if item.strip())`.
unfoldable pub context_of : List Text → Text
context_of items = join (lit " ") (map strip (keep nonblank items))

unfoldable pub is_code_path : Text → Bool
is_code_path path =
    starts_with path (lit "src/")
    || starts_with path (lit "app/")
    || starts_with path (lit "packages/")

abbrev found : Risk → String → RiskAssessment
found risk reason = record { risk_class = risk; reasons = lit reason ∷ []; explicit = false }

-- The signals of the text, strongest first.
unfoldable pub detect : Text → Bool → Risk → RiskAssessment
detect context code_paths fallback =
    if search_in systemic_signal context
    then found r4 "systemic or architecture-level signal detected"
    else if search_in critical_signal context
    then found r3 "critical security, data, production, or concurrency signal detected"
    else if search_in contract_signal context
    then found r2 "integration or public-contract signal detected"
    else if search_in mechanical_signal context && not (search_in change_signal context)
    then found r0 "mechanical or documentation-only signal detected"
    else if search_in mechanical_signal context && not code_paths
    then found r0 "mechanical or documentation-only signal detected"
    else record {
      risk_class = fallback;
      reasons = (lit "no higher-risk signal detected; using default " ++ label fallback) ∷ [];
      explicit = false;
    }

-- `if explicit:`: the empty string counts as none.
abbrev given : Option Text → Option Text
given none = none
given (some []) = none
given (some (c ∷ s)) = some (c ∷ s)

unfoldable pub classify_risk :
    (objective : Text) (allowed_paths acceptance : List Text) (explicit : Option Text)
    (fallback : Text)
    → Res RiskAssessment
classify_risk objective allowed_paths acceptance explicit fallback = elim (given explicit) [
  | some value ↦ do
    risk ← validate_risk value
    ok (record {
      risk_class = risk;
      reasons = lit "risk explicitly supplied by the planner" ∷ [];
      explicit = true;
    })
  | none ↦ do
    default ← validate_risk fallback
    ok (
        detect (context_of (objective ∷ allowed_paths ++ acceptance))
          (any is_code_path allowed_paths) default)
]
