-- ===== src/Executor/StageResult/Built.antt =====
-- What a built result of a research stage guarantees.
use vertical_ai_research_act.Prelude.{
  ℕ, ◌≡◌, refl, String, true, false, not, ◌||◌, some, is_some, List, is_empty, arith, Distinct, All,
  string_eq,
}
use vertical_ai_research_act.Prelude.Result.{ok}
use vertical_ai_research_act.Text.{unique_non_empty_strings}
use vertical_ai_research_act.Text.Laws.{
  IsNormal, unique_non_empty_strings-IsNormal, Distinct-unique_non_empty_strings,
}
use vertical_ai_research_act.Domain.Retrieval.{SourceReference}
use vertical_ai_research_act.Domain.Evidence.{ProcessedEvidenceUnit}
use vertical_ai_research_act.Domain.ResearchStage.{
  ResearchStageInput, completed, ResearchStageResult,
}
use vertical_ai_research_act.Executor.Enums.{ResearchIterationOutcome, is_degrade}
use vertical_ai_research_act.Executor.State.{
  ResearchExecutorIterationState, ResearchExecutorRunState,
}
use vertical_ai_research_act.Executor.Support.{prompt_text_list}
use vertical_ai_research_act.Executor.StageResult.{
  research_status_from_run_state, has_hard_failure, is_failed_status, stage_result, build,
}
use vertical_ai_research_act.Executor.StageResult.Evidence.{
  source_references_from_processed_evidence,
}
use vertical_ai_research_act.Executor.StageResult.Questions.{
  all_questions, open_questions_from_run_state,
}
use vertical_ai_research_act.Executor.StageResult.References.{keys_of, source_references-Distinct}
use vertical_ai_research_act.Executor.StageResult.Status.{
  degrade_questions-returns, error_info-HasError,
}

-- The texts of a result, its references, and the agreement of its status with the rest.
pub record IsSound (json_text : SourceReference → String) (state : ResearchExecutorRunState)
    (count : ℕ) (outcome : ResearchIterationOutcome) (result : ResearchStageResult) : Type 0 where
  pub findings : All IsNormal result.intermediate_findings × Distinct result.intermediate_findings
  pub questions : All IsNormal result.open_questions × Distinct result.open_questions
  pub references : Distinct (keys_of json_text result.retrieved_evidence_refs)
  pub error_iff : is_some result.error_info ≡ is_failed_status result.research_status
  pub counted : result.executed_iteration_count ≡ count
  pub findings_kept :
      result.intermediate_findings ≡ unique_non_empty_strings state.intermediate_findings
  pub references_kept :
      result.retrieved_evidence_refs
      ≡ source_references_from_processed_evidence json_text state.processed_evidence_units
  pub completed_answers :
      result.research_status ≡ completed
      → (is_empty result.open_questions ≡ true)
        × (is_degrade outcome ≡ false)
        × ((not (is_empty state.processed_evidence_units)
              || not (is_empty result.intermediate_findings))
            ≡ true)
  pub usable_kept :
      (not (is_empty state.processed_evidence_units) || not (is_empty result.intermediate_findings))
        ≡ true
      → is_failed_status result.research_status ≡ false

module _ (json_text : SourceReference → String) (stage_input : ResearchStageInput)
    (state : ResearchExecutorRunState) (iteration : ResearchExecutorIterationState) (count : ℕ)
    (outcome : ResearchIterationOutcome) where
  completed_lem :
      (units : List ProcessedEvidenceUnit) (findings questions : List String)
      → research_status_from_run_state state units findings questions outcome ≡ completed
      → (is_empty questions ≡ true)
        × (is_degrade outcome ≡ false)
        × ((not (is_empty units) || not (is_empty findings)) ≡ true)
  unfolding research_status_from_run_state has_hard_failure
  completed_lem units findings questions h = ground arith

  usable_lem :
      (units : List ProcessedEvidenceUnit) (findings questions : List String)
      → (not (is_empty units) || not (is_empty findings)) ≡ true
      → is_failed_status (research_status_from_run_state state units findings questions outcome)
        ≡ false
  unfolding research_status_from_run_state
  usable_lem units findings questions h = ground arith

  -- If an iteration is known, the result is built: its findings are those of the state, its references
  -- those of the evidence of the state, and its count is the one given; its findings and open questions
  -- are normalised, each once, its references have different keys, an error is there exactly if the status is
  -- `failed`, a `completed` result has evidence or findings, no open question and was not degraded,
  -- and a result with evidence or findings is not `failed`.
  pub build-IsSound :
      state.current_iteration ≡ some iteration
      → (result : ResearchStageResult) × (build json_text stage_input state count outcome
          ≡ ok result)
        × IsSound json_text state count outcome result
  unfolding build stage_result prompt_text_list open_questions_from_run_state
  build-IsSound known =
      let units = state.processed_evidence_units in
      let findings = unique_non_empty_strings state.intermediate_findings in
      let (degraded, d) = degrade_questions-returns state iteration known outcome in
      let asked = all_questions stage_input state count outcome degraded in
      let questions = unique_non_empty_strings asked in
      let status = research_status_from_run_state state units findings questions outcome in
      let (error, e, there) =
        error_info-HasError state iteration known units findings questions outcome in
      (
        stage_result json_text state count outcome questions error,
        rw d (rw e refl),
        record {
          findings = (
            unique_non_empty_strings-IsNormal state.intermediate_findings,
            Distinct-unique_non_empty_strings state.intermediate_findings,
          );
          questions =
              (unique_non_empty_strings-IsNormal asked, Distinct-unique_non_empty_strings asked);
          references = (source_references-Distinct json_text units).0;
          error_iff = there;
          counted = refl;
          findings_kept = refl;
          references_kept = refl;
          completed_answers = λ h. completed_lem units findings questions h;
          usable_kept = λ h. usable_lem units findings questions h;
        },
      )
