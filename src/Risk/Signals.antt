-- ===== src/Risk/Signals.antt =====
-- The classifier of src/durable_threads/risk.py on every task text.
use durable_threads.Prelude.{
  ok-injective, ap, subst, ◌≤◌, Text, lit, ◌==◌, upper, strip, Bool, true, false, none, List, ◌∷◌,
  ◌++◌, ◌≡◌, refl, ok, >>=-eq-ok, arith, any, ◌⊎◌,
}
use durable_threads.Regex.{search_in}
use durable_threads.Risk.{
  change_signal, Risk, r0, r1, r2, r3, r4, rank, label, parse_label, validate_risk, meets,
  meets_threshold, classify_risk, RiskAssessment, detect, context_of, systemic_signal,
  critical_signal, contract_signal, mechanical_signal, is_code_path,
}

-- The string of a class is read as that class.
pub validate_risk-label : (r : Risk) → validate_risk (label r) ≡ ok r
unfolding validate_risk parse_label label lit ◌==◌ upper strip
validate_risk-label r0 = refl
validate_risk-label r1 = refl
validate_risk-label r2 = refl
validate_risk-label r3 = refl
validate_risk-label r4 = refl

-- On the strings of two classes `meets_threshold` returns, and compares their ranks.
meets_threshold-label : (r t : Risk) → meets_threshold (label r) (label t) ≡ ok (meets r t)
unfolding meets_threshold
meets_threshold-label r t = rw (validate_risk-label r) (rw (validate_risk-label t))

-- What the signals of a context say of the detected class `c`: each is a floor, whatever the default
-- is, and R0 takes a mechanical signal with no change word or no code path, unless it is the default.
pub record Floors (context : Text) (code_paths : Bool) (fallback c : Risk) : Type 0 where
  pub systemic : search_in systemic_signal context ≡ true → c ≡ r4
  pub critical : search_in critical_signal context ≡ true → 3 ≤ rank c
  pub contract : search_in contract_signal context ≡ true → 2 ≤ rank c
  pub mechanical :
      c ≡ r0
      → (fallback ≡ r0)
        ⊎ ((search_in mechanical_signal context ≡ true)
            × ((search_in change_signal context ≡ false) ⊎ (code_paths ≡ false)))
  pub quiet :
      search_in systemic_signal context ≡ false
      → search_in critical_signal context ≡ false
      → search_in contract_signal context ≡ false
      → search_in mechanical_signal context ≡ false
      → c ≡ fallback

detect-Floors :
    (context : Text) (code_paths : Bool) (fallback : Risk)
    → Floors context code_paths fallback (detect context code_paths fallback).risk_class
unfolding detect rank
detect-Floors context code_paths fallback = record {
  systemic = ground arith;
  critical = ground arith;
  contract = ground arith;
  mechanical = ground arith;
  quiet = ground arith;
}

-- Where `classify_risk` returns without an explicit class, its default is a class and what it returns
-- keeps to the signals of the text: a systemic one gives R4, a critical one at least R3, a contract one
-- at least R2; R0 is the default or comes with a mechanical signal and either no change word or no code
-- path; with no signal it is the default.
pub classify_risk-Floors :
    (objective : Text) (allowed_paths acceptance : List Text) (fallback : Text) (a : RiskAssessment)
    → classify_risk objective allowed_paths acceptance none fallback ≡ ok a
    → (default : Risk) × (validate_risk fallback ≡ ok default)
      × Floors
          (context_of (objective ∷ allowed_paths ++ acceptance))
          (any is_code_path allowed_paths)
          default
          a.risk_class
      × (a.explicit ≡ false)
unfolding classify_risk
classify_risk-Floors objective allowed_paths acceptance fallback a h =
    let (default, valid, h₁) = >>=-eq-ok (validate_risk fallback) _ h in
    let same = ok-injective h₁ in
    (
      default,
      valid,
      subst (Floors _ _ default) (ap (λ (x : RiskAssessment). x.risk_class) same)
          (detect-Floors _ _ default),
      unfold detect in ground arith,
    )
