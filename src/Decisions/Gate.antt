-- ===== src/Decisions/Gate.antt =====
-- The gate of src/durable_threads/decisions.py under every policy.
use durable_threads.Prelude.{
  ℕ, ◌≤◌, Text, upper, true, some, ◌≡◌, inl, inr, ◌↔◌, ℤ, pos, ◌≤ℤ◌, ok, arith, Option-cases,
}
use durable_threads.Risk.{Risk, r0, rank, parse_label}
use durable_threads.Decisions.{
  DecisionPolicy, DecisionGate, auto, verify, review, escalate, gate_of, gate, auto_threshold,
  is_high,
}

-- How much a gate asks for, from AUTO up to ESCALATE.
abbrev pub severity : DecisionGate → ℕ
severity auto = 0
severity verify = 1
severity review = 2
severity escalate = 3

module _ (policy : DecisionPolicy) where
  -- AUTO is given to R0 alone, at a certainty in [0, 1] that is below none of the limits of escalation,
  -- review and AUTO.
  pub gate-auto :
      (certainty : ℤ) (risk_class : Text)
      → gate policy certainty risk_class ≡ ok auto
      → (parse_label (upper risk_class) ≡ some r0)
        × (policy.escalate_below ≤ℤ certainty)
        × (policy.review_below ≤ℤ certainty)
        × (policy.auto_threshold_r0 ≤ℤ certainty)
        × (pos 0 ≤ℤ certainty)
        × (certainty ≤ℤ pos 1000)
  unfolding gate gate_of auto_threshold
  gate-auto certainty risk_class h = ground arith

  -- R3 and R4 are reviewed or escalated, whatever the certainty and the policy.
  gate_high :
      (certainty : ℤ) (risk : Risk)
      → is_high risk ≡ true
      → 2 ≤ severity (gate_of policy certainty risk)
  unfolding gate_of auto_threshold
  gate_high certainty risk h = ground arith

  -- More certainty never asks for more, for any class and any policy.
  gate_certainty_mono :
      (low high : ℤ) (risk : Risk)
      → low ≤ℤ high
      → severity (gate_of policy high risk) ≤ severity (gate_of policy low risk)
  unfolding gate_of auto_threshold
  gate_certainty_mono low high risk h = ground arith

  -- A higher class never asks for less, at any certainty and for any policy.
  gate_risk_mono :
      (certainty : ℤ) (low high : Risk)
      → rank low ≤ rank high
      → severity (gate_of policy certainty low) ≤ severity (gate_of policy certainty high)
  unfolding gate_of rank
  gate_risk_mono certainty low high h = ground arith

  -- A higher class at no more certainty never asks for less, for any policy; and R3 and R4 are
  -- reviewed or escalated at any certainty.
  pub gate_mono :
      (certainty certainty' : ℤ) (risk risk' : Risk)
      → certainty' ≤ℤ certainty
      → rank risk ≤ rank risk'
      → (severity (gate_of policy certainty risk) ≤ severity (gate_of policy certainty' risk'))
        × (is_high risk' ≡ true → 2 ≤ severity (gate_of policy certainty' risk'))
  gate_mono certainty certainty' risk risk' h k = (
    omega (
      arith,
      gate_risk_mono certainty risk risk' k,
      gate_certainty_mono certainty' certainty risk' h,
    ),
    gate_high certainty' risk',
  )

  -- `gate` returns exactly for a certainty in [0, 1] and a class of RISK_LEVELS.
  pub gate_returns :
      (certainty : ℤ) (risk_class : Text)
      → ((g : DecisionGate) × (gate policy certainty risk_class ≡ ok g)) ↔ (
          (pos 0 ≤ℤ certainty)
          × (certainty ≤ℤ pos 1000)
          × (risk : Risk) × (parse_label (upper risk_class) ≡ some risk))
  unfolding gate
  gate_returns certainty risk_class = (
    λ (g, h). elim (Option-cases (parse_label (upper risk_class))) [
      | inl unknown ↦ absurd (ground arith)
      | inr (risk, known) ↦ (ground arith, ground arith, risk, known)
    ],
    λ (lo, hi, risk, e). (gate_of policy certainty risk, ground arith),
  )
