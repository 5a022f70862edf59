-- ===== src/Executor/Outcome.antt =====
-- The outcome evaluator (app/services/executor/iteration_outcome_evaluator.py): rules that decide
-- without the language model, its proposal, and the guardrails on the proposal.
pub mod Rules
pub mod Guardrails
pub mod Written
use vertical_ai_research_act.Prelude.{
  String, ◌<>◌, Bool, true, false, not, ◌&&◌, ◌||◌, Option, none, some, is_empty, leb,
  if◌then◌else◌,
}
use vertical_ai_research_act.Prelude.Result.{Result, ok, ◌>>=◌}
use vertical_ai_research_act.Prelude.Act
use vertical_ai_research_act.Prelude.Act.{Act}
use vertical_ai_research_act.Domain.Evidence.{EvidenceProcessingResult, is_processing_failed}
use vertical_ai_research_act.Domain.ResearchStage.{ResearchStageInput}
use vertical_ai_research_act.Executor.Enums.{
  ResearchActionMode, is_refine, ResearchIterationOutcome, continue, stop, degrade, is_continue,
  is_stop, is_degrade, ResearchTopGapProgress, resolved, not_advanced, regressed,
  ResearchResidualUncertainty, minimal, ResearchEvidenceGain, failed_acquisition,
  no_meaningful_gain, ResearchFindingMaturity, stable, ResearchSupportStrength, strong_enough,
}
use vertical_ai_research_act.Executor.Payloads.{
  LlmResearchAssessmentPayload, LlmIterationOutcomePayload,
}
use vertical_ai_research_act.Executor.State.{
  ResearchIterationEvaluationState, ResearchExecutorIterationState, ResearchExecutorRunState,
  require_current_iteration,
}
use vertical_ai_research_act.Executor.Support.{
  has_no_actionable_evidence_need, did_tel_fail_or_return_no_result, did_new_evidence_arrive,
  remaining_iteration_budget_after_current, iteration_input_budget_pressure, is_high,
}
use vertical_ai_research_act.Executor.Collaborators.{Collaborators}
use vertical_ai_research_act.Executor.Outcome.Rules.{
  short_circuit_iteration_outcome, apply_iteration_outcome_guardrails,
}

-- The evaluation state of a decision without the language model.
abbrev rule_evaluation : String → ResearchIterationEvaluationState
rule_evaluation reason = record {
  short_circuit_reason = some reason;
  top_gap_progress = none;
  evidence_gain = none;
  finding_progress = none;
  residual_uncertainty = none;
}

-- `_iteration_evaluation_state`
unfoldable iteration_evaluation_state :
    LlmIterationOutcomePayload → ResearchIterationEvaluationState
iteration_evaluation_state payload = record {
  short_circuit_reason = none;
  top_gap_progress = some payload.top_gap_progress;
  evidence_gain = some payload.evidence_gain;
  finding_progress = some payload.finding_progress;
  residual_uncertainty = some payload.residual_uncertainty;
}

-- `_write_iteration_outcome`, for the iteration under way.
unfoldable pub write_iteration_outcome :
    ResearchExecutorRunState
    → ResearchExecutorIterationState
    → ResearchIterationOutcome
    → String
    → String
    → ResearchIterationEvaluationState
    → Option ResearchIterationOutcome
    → Bool
    → ResearchExecutorRunState
write_iteration_outcome state iteration outcome rationale source evaluation proposed applied =
    record state {
      current_iteration = some (record iteration {
        evaluation_state = some evaluation;
        iteration_outcome = some outcome;
        outcome_rationale = some rationale;
        outcome_decision_source = some source;
        proposed_iteration_outcome = proposed;
        outcome_guardrail_applied = applied;
      });
    }

-- The state with its iteration closed after a failure.
unfoldable pub degraded_state :
    ResearchExecutorRunState → ResearchExecutorIterationState → String → ResearchExecutorRunState
unfolding write_iteration_outcome
degraded_state state iteration failed_step =
    let rationale = "Research iteration 在 " <> failed_step <> " 阶段发生异常；已保留此前形成的研究成果并降级收束。" in
    write_iteration_outcome state iteration degrade rationale "runtime_failure_boundary"
      (rule_evaluation rationale) none false

-- `degrade_after_runtime_failure`, which returns `degrade` and the changed state.
unfoldable pub degrade_after_runtime_failure :
    ResearchExecutorRunState → String → Result (ResearchIterationOutcome × ResearchExecutorRunState)
unfolding degraded_state require_current_iteration
degrade_after_runtime_failure state failed_step = do
  iteration ← require_current_iteration state
  ok (degrade, degraded_state state iteration failed_step)

-- What the rules decided, written.
unfoldable pub decided_by_rule :
    ResearchExecutorRunState
    → ResearchExecutorIterationState
    → ResearchIterationOutcome
    → String
    → ResearchIterationOutcome × ResearchExecutorRunState
unfolding write_iteration_outcome
decided_by_rule state iteration outcome rationale = (
  outcome,
  write_iteration_outcome state iteration outcome rationale "rule_short_circuit"
      (rule_evaluation rationale) none false,
)

-- What the language model proposed, under the guardrails and written.
unfoldable pub decided_by_model :
    ResearchStageInput
    → ResearchExecutorRunState
    → ResearchExecutorIterationState
    → LlmIterationOutcomePayload
    → ResearchIterationOutcome × ResearchExecutorRunState
unfolding write_iteration_outcome iteration_evaluation_state apply_iteration_outcome_guardrails
decided_by_model stage_input state iteration payload =
    let (outcome, rationale, applied) =
      apply_iteration_outcome_guardrails stage_input iteration payload in
    (
      outcome,
      write_iteration_outcome state iteration outcome rationale "llm_with_guardrails"
          (iteration_evaluation_state payload) (some payload.proposed_iteration_outcome) applied,
    )

module _ {W : Type 0} (collaborators : Collaborators W) where
  unfoldable pub evaluate_from :
      ResearchStageInput
      → ResearchExecutorRunState
      → ResearchExecutorIterationState
      → Option (ResearchIterationOutcome × String)
      → Act W (ResearchIterationOutcome × ResearchExecutorRunState)
  unfolding decided_by_rule decided_by_model
  evaluate_from stage_input state iteration (some (outcome, rationale)) =
      Act.pure (decided_by_rule state iteration outcome rationale)
  evaluate_from stage_input state iteration none =
      Act.◌>>=◌ (collaborators.answer_outcome stage_input state)
        λ payload. Act.pure (decided_by_model stage_input state iteration payload)

  -- `evaluate`
  unfoldable pub evaluate :
      ResearchStageInput
      → ResearchExecutorRunState
      → Act W (ResearchIterationOutcome × ResearchExecutorRunState)
  unfolding evaluate_from require_current_iteration short_circuit_iteration_outcome
  evaluate stage_input state = Act.◌>>=◌ (Act.lift (require_current_iteration state)) λ iteration.
      evaluate_from stage_input state iteration
        (short_circuit_iteration_outcome stage_input state iteration)
