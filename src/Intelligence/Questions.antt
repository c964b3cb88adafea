-- ===== src/Intelligence/Questions.antt =====
-- The questions of `assess_task` and `assess_result` in src/durable_threads/intelligence.py.
use durable_threads.Prelude.{Text, String, lit, Option, some, [], ◌∷◌, ok, ◌>>=◌}
use durable_threads.Errors.{Res}
use durable_threads.Dict.{Dict}
use durable_threads.Json.{Json, str}
use durable_threads.Decisions.{DecisionQuestion, noul_question, choice_question}

abbrev yes_no : String → String → String → DecisionQuestion
yes_no ask true_text false_text =
    noul_question (str (lit ask)) (some (str (lit true_text))) (some (str (lit false_text)))

abbrev option : String → String → Text × Option Json
option key what = (lit key, some (str (lit what)))

unfoldable pub task_questions : Res (Dict DecisionQuestion)
task_questions = do
  risk ← choice_question (str (lit "Classify consequence risk, not implementation difficulty.")) (
      option "R0" "Mechanical or documentation-only change with negligible consequence."
      ∷ option "R1" "Bounded isolated feature or bug fix with narrow blast radius."
      ∷ option "R2" "Integration or contract change across components or external systems."
      ∷ option "R3"
          "Critical security, auth, privacy, payments, destructive data, or concurrency work."
      ∷ option "R4"
          "Systemic distributed architecture, control-plane, recovery, or platform migration work."
      ∷ [])
  shape ←
      choice_question
        (str (lit "Choose the smallest execution shape likely to produce reliable evidence."))
        (option "single_worker" "One bounded executor is sufficient."
          ∷ option "worker_plus_review" "One executor followed by independent review is warranted."
          ∷ option "parallel_workers"
              "Two independent executors are worth the extra cost because uncertainty is high."
          ∷ [])
  ok (
      (lit "risk", risk)
      ∷ (
        lit "delegate",
        yes_no
            "Would handing this bounded task to an execution worker improve throughput or isolation?"
            "Delegation has a clear implementation/review boundary."
            "The current planner should keep the work local because delegation adds ambiguity or overhead.",
      )
      ∷ (
        lit "ambiguous",
        yes_no
            "Is the objective materially ambiguous such that execution risks solving the wrong problem?"
            "Important requirements or acceptance conditions are unresolved."
            "The task is bounded enough to execute against the supplied contract.",
      )
      ∷ (lit "execution_shape", shape)
      ∷ (
        lit "independent_review",
        yes_no "Should a successful implementation receive independent review before integration?"
            "The consequence or ambiguity justifies a separate reviewer."
            "Deterministic checks are sufficient at this consequence level.",
      )
      ∷ [])

unfoldable pub result_questions : Res (Dict DecisionQuestion)
result_questions = do
  intervention ←
      choice_question
        (str (lit "Choose the next intervention if this result cannot be integrated as-is."))
        (option "accept" "The result is complete enough to pass semantic review."
          ∷ option "correct_same" "A focused correction by the same executor is likely sufficient."
          ∷ option "switch_executor" "The failure suggests a capability or execution mismatch."
          ∷ option "stronger_model"
              "The work needs materially stronger reasoning, not just another attempt."
          ∷ option "human_review" "The remaining ambiguity or consequence requires a person."
          ∷ [])
  ok (
      (
        lit "semantic_complete",
        yes_no
            "Does the reported result satisfy the user's objective rather than merely completing some work?"
            "The result substantively satisfies the objective and stated acceptance intent."
            "Important requested behavior is missing, contradicted, or unresolved.",
      )
      ∷ (
        lit "evidence_sufficient",
        yes_no "Is the supplied evidence sufficient to justify the claimed result?"
            "The checks and reported evidence are proportionate to the claim."
            "The claim is under-evidenced, vague, or depends on unverified assumptions.",
      )
      ∷ (lit "intervention", intervention)
      ∷ [])
