-- ===== src/Executor/Findings.antt =====
-- The findings refiner (app/services/executor/intermediate_findings_refiner.py): the language
-- model's findings and caveats replace the old ones, normalised.
use vertical_ai_research_act.Prelude.Act
use vertical_ai_research_act.Prelude.Act.{Act}
use vertical_ai_research_act.Text.{unique_non_empty_strings}
use vertical_ai_research_act.Domain.ResearchStage.{ResearchStageInput}
use vertical_ai_research_act.Executor.Payloads.{LlmIntermediateFindingsPayload}
use vertical_ai_research_act.Executor.State.{ResearchExecutorRunState, require_current_iteration}
use vertical_ai_research_act.Executor.Collaborators.{Collaborators}

unfoldable pub with_findings :
    ResearchExecutorRunState → LlmIntermediateFindingsPayload → ResearchExecutorRunState
unfolding unique_non_empty_strings
with_findings state payload = record state {
  intermediate_findings = unique_non_empty_strings payload.intermediate_findings;
  finding_caveats = unique_non_empty_strings payload.finding_caveats;
}

module _ {W : Type 0} (collaborators : Collaborators W) where
  -- `refine`
  unfoldable pub refine :
      ResearchStageInput → ResearchExecutorRunState → Act W ResearchExecutorRunState
  unfolding with_findings require_current_iteration
  refine stage_input state = Act.◌>>=◌ (Act.lift (require_current_iteration state)) λ iteration.
      Act.◌>>=◌ (collaborators.answer_findings stage_input state)
        λ payload. Act.pure (with_findings state payload)
