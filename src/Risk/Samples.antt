-- ===== src/Risk/Samples.antt =====
-- The classifier on small texts, and its theorems there.
use durable_threads.Prelude.{
  Text, lit, codes, ◌==◌, upper, strip, nonblank, join, starts_with, any, keep, false, none, List,
  [], ◌∷◌, ◌++◌, ◌≡◌, refl, ok,
}
use durable_threads.Regex.{search_in, is_word}
use durable_threads.Risk.{
  Risk, r0, r1, r2, r3, r4, label, parse_label, validate_risk, classify_risk, RiskAssessment,
  detect, context_of, is_code_path, systemic_signal, critical_signal, contract_signal,
  mechanical_signal, change_signal,
}
use durable_threads.Risk.Signals.{classify_risk-Floors, Floors}

-- The definitions that a run of the classifier calls.
unfoldable pub classifier : Unit {0}
unfolding classify_risk detect context_of is_code_path validate_risk parse_label label lit ◌==◌
    upper strip nonblank join starts_with any keep search_in is_word systemic_signal critical_signal
    contract_signal mechanical_signal change_signal
classifier = tt

abbrev task : Text
task = codes "Fix the login bug in the auth service"

class_of : List Text → Text → Risk
class_of paths objective = elim (classify_risk objective paths [] none (lit "R1")) [
  | ok a ↦ a.risk_class
  | _ ↦ r1
]

auth_is_critical : class_of [] task ≡ r3
unfolding classifier class_of
auth_is_critical = refl

typo_is_mechanical : class_of (codes "docs/a.md" ∷ []) (codes "typo in README") ≡ r0
unfolding classifier class_of
typo_is_mechanical = refl

typo_in_code : class_of (codes "src/a.py" ∷ []) (codes "fix a typo") ≡ r1
unfolding classifier class_of
typo_in_code = refl

region_is_systemic : class_of [] (codes "Multi-region failover") ≡ r4
unfolding classifier class_of
region_is_systemic = refl

padded_label : validate_risk (codes " r2 ") ≡ ok r2
unfolding classifier
padded_label = refl

abbrev outcome : RiskAssessment
outcome = record {
  risk_class = r3;
  reasons = codes "critical security, data, production, or concurrency signal detected" ∷ [];
  explicit = false;
}

classify_risk-Floors_example :
    (default : Risk) × (validate_risk (label r1) ≡ ok default)
    × Floors (context_of (task ∷ [] ++ [])) (any is_code_path []) default outcome.risk_class
    × (outcome.explicit ≡ false)
unfolding classifier
classify_risk-Floors_example = classify_risk-Floors task [] [] (label r1) outcome refl
