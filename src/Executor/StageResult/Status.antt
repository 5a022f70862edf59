-- ===== src/Executor/StageResult/Status.antt =====
-- The status of a stage's result, its error and its texts agree.
use vertical_ai_research_act.Prelude.{
  ◌≡◌, refl, ◌∙◌, String, Bool, true, ◌||◌, Option, none, some, is_some, List, [], ◌∷◌, any, arith,
  string_eq, inl, inr, Bool-cases,
}
use vertical_ai_research_act.Prelude.Result.{Result, ok}
use vertical_ai_research_act.Domain.Requests.{ToolExecutionLayerResult}
use vertical_ai_research_act.Domain.Evidence.{ProcessedEvidenceUnit, EvidenceProcessingResult}
use vertical_ai_research_act.Executor.Enums.{ResearchIterationOutcome, is_degrade}
use vertical_ai_research_act.Executor.State.{
  ResearchExecutorIterationState, ResearchExecutorRunState, require_current_iteration,
}
use vertical_ai_research_act.Executor.StageResult.{
  tools_failed, processing_broke, has_hard_failure, research_status_from_run_state,
  first_tools_error, first_processing_error, degrade_error, is_failed_status, first_error,
  error_info_from_run_state,
}
use vertical_ai_research_act.Executor.StageResult.Questions.{degrade_questions}

is_some-first_tools_error :
    (results : List ToolExecutionLayerResult)
    → is_some (first_tools_error results) ≡ any tools_failed results
unfolding first_tools_error
is_some-first_tools_error [] = refl
is_some-first_tools_error (r ∷ results) = elim (Bool-cases (tools_failed r)) [
  | inl fails ↦ rw fails refl
  | inr works ↦ rw works (is_some-first_tools_error results)
]

is_some-first_processing_error :
    (results : List EvidenceProcessingResult)
    → is_some (first_processing_error results) ≡ any processing_broke results
unfolding first_processing_error
is_some-first_processing_error [] = refl
is_some-first_processing_error (r ∷ results) = elim (Bool-cases (processing_broke r)) [
  | inl fails ↦ rw fails refl
  | inr works ↦ rw works (is_some-first_processing_error results)
]

-- A returned error, with what tells whether there is one.
abbrev HasError : Bool → Result (Option String) → Type 0
HasError expected r = (error : Option String) × (r ≡ ok error) × (is_some error ≡ expected)

first_error-HasError :
    (tools processing : Option String) (degraded : Result (Option String)) (expected : Bool)
    → HasError expected degraded
    → HasError
        (is_some tools || is_some processing || expected)
        (first_error tools processing degraded)
first_error-HasError (some error) processing degraded expected h = (some error, refl, refl)
first_error-HasError none (some error) degraded expected h = (some error, refl, refl)
first_error-HasError none none degraded expected h = h

module _ (state : ResearchExecutorRunState) (iteration : ResearchExecutorIterationState)
    (known : state.current_iteration ≡ some iteration) where
  degrade_error-HasError :
      (outcome : ResearchIterationOutcome)
      → HasError (is_degrade outcome) (degrade_error state outcome)
  unfolding degrade_error require_current_iteration
  degrade_error-HasError outcome = elim (Bool-cases (is_degrade outcome)) [
    | inl degrades ↦ rw degrades (rw known (some _, refl, refl))
    | inr other ↦ rw other (none, refl, refl)
  ]

  pub degrade_questions-returns :
      (outcome : ResearchIterationOutcome)
      → (questions : List String) × (degrade_questions state outcome ≡ ok questions)
  unfolding degrade_questions require_current_iteration
  degrade_questions-returns outcome = elim (Bool-cases (is_degrade outcome)) [
    | inl degrades ↦ rw degrades (rw known (_, refl))
    | inr other ↦ rw other ([], refl)
  ]

  failure_reported :
      (units : List ProcessedEvidenceUnit) (findings questions : List String)
      (outcome : ResearchIterationOutcome)
      → is_failed_status (research_status_from_run_state state units findings questions outcome)
        ≡ true
      → (is_some (first_tools_error state.tool_execution_results)
          || is_some (first_processing_error state.evidence_processing_results)
          || is_degrade outcome)
        ≡ true
  unfolding research_status_from_run_state has_hard_failure
  failure_reported units findings questions outcome h = ground (
    arith,
    is_some-first_tools_error state.tool_execution_results,
    is_some-first_processing_error state.evidence_processing_results,
  )

  -- The error is there exactly if the status is `failed`.
  pub error_info-HasError :
      (units : List ProcessedEvidenceUnit) (findings questions : List String)
      (outcome : ResearchIterationOutcome)
      → let status = research_status_from_run_state state units findings questions outcome in
        HasError (is_failed_status status) (error_info_from_run_state state status outcome)
  unfolding error_info_from_run_state
  error_info-HasError units findings questions outcome =
      let status = research_status_from_run_state state units findings questions outcome in
      elim (Bool-cases (is_failed_status status)) [
        | inr fine ↦ rw fine (none, refl, refl)
        | inl fails ↦
            let (error, returned, there) =
              first_error-HasError (first_tools_error state.tool_execution_results)
                (first_processing_error state.evidence_processing_results)
                (degrade_error state outcome) (is_degrade outcome)
                (degrade_error-HasError outcome) in
            rw fails
              (error, returned, there ∙ failure_reported units findings questions outcome fails)
      ]
