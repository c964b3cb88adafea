-- ===== src/Contracts.antt =====
-- src/durable_threads/temporal_contracts.py: what workflows and activities hand to one another.
-- An assessment that crosses the boundary as a `dict` keeps the record of its keys.
use durable_threads.Prelude.{
  Text, nonblank, Bool, true, false, not, ◌&&◌, Option, List, [], ◌∷◌, ℤ, pos, ltb_ℤ, leb_ℤ, ok,
  ◌>>◌, raise_if,
}
use durable_threads.Errors.{Res, value_error}
use durable_threads.Dict.{Dict}
use durable_threads.Risk.{Risk}
use durable_threads.Intelligence.{TaskAssessment}

pub record TaskRunInput : Type 0 where
  pub objective : Text
  pub allowed_paths : List Text
  pub acceptance : List Text
  pub cwd : Text
  pub constraints : List Text
  pub preferred_providers : List Text
  pub required_capabilities : List Text
  pub model_selector : Text
  pub reasoning_effort : Text
  pub base_ref : Option Text
  pub max_attempts : ℤ
  pub speculative_parallelism : ℤ
  pub human_gate_at : Text
  pub wait_for_human_review : Bool
  pub provider_timeout_seconds : ℤ
  pub max_output_chars : ℤ

abbrev pub is_empty {ℓ} : {A : Type ℓ} → List A → Bool
is_empty [] = true
is_empty (x ∷ xs) = false

-- `__post_init__`.
unfoldable pub check_input : TaskRunInput → Res TaskRunInput
check_input task = do
  raise_if (not (nonblank task.objective)) (value_error "objective must not be empty")
  raise_if (is_empty task.allowed_paths) (value_error "allowed_paths must not be empty")
  raise_if (is_empty task.acceptance) (value_error "acceptance must not be empty")
  raise_if (not (nonblank task.cwd)) (value_error "cwd must not be empty")
  raise_if (ltb_ℤ task.max_attempts (pos 1)) (value_error "max_attempts must be >= 1")
  raise_if
      (not
        (leb_ℤ (pos 1) task.speculative_parallelism && leb_ℤ task.speculative_parallelism (pos 4)))
      (value_error "speculative_parallelism must be between 1 and 4")
  raise_if (ltb_ℤ task.provider_timeout_seconds (pos 1))
      (value_error "provider_timeout_seconds must be >= 1")
  raise_if (ltb_ℤ task.max_output_chars (pos 200)) (value_error "max_output_chars must be >= 200")
  ok task

pub record RouteExecutorsInput : Type 0 where
  pub task : TaskRunInput
  pub assessment : TaskAssessment
  pub excluded_providers : List Text
  pub preferred_providers : List Text

pub record ExecutionAttemptInput : Type 0 where
  pub task : TaskRunInput
  pub provider : Text
  pub risk_class : Risk
  pub attempt : ℤ
  pub execution_shape : Text

pub record VerificationInput : Type 0 where
  pub cwd : Text
  pub base_ref : Option Text
  pub allowed_paths : List Text
  pub stdout : Text

-- The dict of `verify_execution_activity`.
pub record Verification : Type 0 where
  pub complete : Bool
  pub status : Text
  pub changed_paths : List Text
  pub checks : List Text
  pub remaining_concerns : List Text
  pub actual_paths : List Text
  pub error : Option Text

pub record ResultDecisionInput : Type 0 where
  pub task : TaskRunInput
  pub provider : Text
  pub risk_class : Risk
  pub return_code : ℤ
  pub stdout : Text
  pub verification : Verification

-- The dict of an execution outcome.
pub record ExecutionOutcome : Type 0 where
  pub provider : Text
  pub return_code : ℤ
  pub stdout : Text
  pub stderr : Text
  pub session_id : Option Text
  pub usage : Option (Dict ℤ)

-- The keys of a result assessment that the workflow reads.
pub record ResultView : Type 0 where
  pub integration_ready : Bool
  pub accepted : Bool
  pub review_required : Bool
  pub intervention : Text
  pub intervention_certainty : ℤ
  pub semantic_complete_probability : ℤ
  pub evidence_sufficient_probability : ℤ

pub record AttemptResult : Type 0 where
  pub provider : Text
  pub return_code : ℤ
  pub stdout : Text
  pub stderr : Text
  pub session_id : Option Text
  pub usage : Option (Dict ℤ)
  pub verification : Verification
  pub result_assessment : ResultView
  pub accepted : Bool
  pub review_required : Bool

pub record ReviewDecision : Type 0 where
  pub approved : Bool
  pub note : Text

-- The statuses that `_result` is called with.
pub data Status : Type 0 where
  complete rejected review_required failed : Status

pub record TaskRunResult : Type 0 where
  pub status : Status
  pub final_risk : Risk
  pub selected_provider : Option Text
  pub task_assessment : TaskAssessment
  pub attempts : List AttemptResult
  pub review_note : Option Text
