-- ===== src/Executor/Outcome/Rules.antt =====
-- The rules of the outcome evaluator: the decisions without the language model, and the guardrails on
-- its proposal.
use vertical_ai_research_act.Prelude.{
  String, Bool, true, false, not, ◌&&◌, ◌||◌, Option, none, some, is_empty, leb, if◌then◌else◌,
}
use vertical_ai_research_act.Domain.Evidence.{EvidenceProcessingResult, is_processing_failed}
use vertical_ai_research_act.Domain.ResearchStage.{ResearchStageInput}
use vertical_ai_research_act.Executor.Enums.{
  ResearchActionMode, is_refine, ResearchIterationOutcome, stop, degrade, is_continue, is_stop,
  is_degrade, ResearchTopGapProgress, resolved, not_advanced, regressed,
  ResearchResidualUncertainty, minimal, ResearchEvidenceGain, failed_acquisition,
  no_meaningful_gain, ResearchFindingMaturity, stable, ResearchSupportStrength, strong_enough,
}
use vertical_ai_research_act.Executor.Payloads.{
  LlmResearchAssessmentPayload, LlmIterationOutcomePayload,
}
use vertical_ai_research_act.Executor.State.{
  ResearchExecutorIterationState, ResearchExecutorRunState,
}
use vertical_ai_research_act.Executor.Support.{
  has_no_actionable_evidence_need, did_tel_fail_or_return_no_result, did_new_evidence_arrive,
  remaining_iteration_budget_after_current, iteration_input_budget_pressure, is_high,
}

abbrev refines : Option ResearchActionMode → Bool
refines none = false
refines (some mode) = is_refine mode

abbrev is_stable : ResearchFindingMaturity → Bool
is_stable stable = true
is_stable _ = false

abbrev is_strong_enough : ResearchSupportStrength → Bool
is_strong_enough strong_enough = true
is_strong_enough _ = false

-- The findings are stable and supported strongly enough.
abbrev pub is_settled : Option LlmResearchAssessmentPayload → Bool
is_settled none = false
is_settled (some assessment) =
    is_stable assessment.finding_maturity && is_strong_enough assessment.support_strength

abbrev pub did_processing_fail : Option EvidenceProcessingResult → Bool
did_processing_fail none = false
did_processing_fail (some result) = is_processing_failed result.processing_status

-- No budget is left for another iteration, or the pressure is high.
unfoldable pub is_out_of_budget : ResearchStageInput → ResearchExecutorIterationState → Bool
unfolding remaining_iteration_budget_after_current iteration_input_budget_pressure
is_out_of_budget stage_input iteration =
    leb (remaining_iteration_budget_after_current stage_input iteration) 0
    || is_high (iteration_input_budget_pressure stage_input iteration)

-- `_short_circuit_iteration_outcome`, for the iteration under way.
unfoldable pub short_circuit_iteration_outcome :
    ResearchStageInput
    → ResearchExecutorRunState
    → ResearchExecutorIterationState
    → Option (ResearchIterationOutcome × String)
unfolding has_no_actionable_evidence_need did_tel_fail_or_return_no_result is_out_of_budget
short_circuit_iteration_outcome stage_input state iteration =
    let no_need = has_no_actionable_evidence_need state.top_gap state.next_evidence_need in
    if no_need
    then some (stop, "当前 top_gap / next_evidence_need 表示没有可继续推进的 actionable gap，因此本轮直接收束。")
    else if refines iteration.action_mode && is_settled state.current_assessment
    then some (stop, "当前 findings 已稳定且支撑强度足够，本轮无需继续发起新的 iteration。")
    else if did_processing_fail iteration.evidence_processing_result
    then some (degrade, "Evidence Processing 阶段失败，本轮无法形成可用 evidence，因此进入降级收束。")
    else if did_tel_fail_or_return_no_result iteration
        && not (did_new_evidence_arrive iteration)
        && is_out_of_budget stage_input iteration
    then some
        (degrade, "本轮 acquisition failed/no_result 且没有新增 processed evidence，在当前预算约束下继续投入价值较低。")
    else if is_empty stage_input.available_families
        && not no_need
        && not (did_new_evidence_arrive iteration)
    then some
        (degrade, "当前存在 actionable gap，但 runtime 未声明可选 retrieval family 且没有新增 evidence，因此进入降级收束。")
    else none

abbrev pub is_resolved : ResearchTopGapProgress → Bool
is_resolved resolved = true
is_resolved _ = false

abbrev pub is_not_advanced : ResearchTopGapProgress → Bool
is_not_advanced not_advanced = true
is_not_advanced _ = false

abbrev is_standstill : ResearchTopGapProgress → Bool
is_standstill not_advanced = true
is_standstill regressed = true
is_standstill _ = false

abbrev pub is_minimal : ResearchResidualUncertainty → Bool
is_minimal minimal = true
is_minimal _ = false

abbrev pub is_failed_acquisition : ResearchEvidenceGain → Bool
is_failed_acquisition failed_acquisition = true
is_failed_acquisition _ = false

abbrev is_gainless : ResearchEvidenceGain → Bool
is_gainless failed_acquisition = true
is_gainless no_meaningful_gain = true
is_gainless _ = false

-- `_apply_iteration_outcome_guardrails`, for the iteration under way.
unfoldable pub apply_iteration_outcome_guardrails :
    ResearchStageInput
    → ResearchExecutorIterationState
    → LlmIterationOutcomePayload
    → ResearchIterationOutcome × String × Bool
unfolding iteration_input_budget_pressure remaining_iteration_budget_after_current
apply_iteration_outcome_guardrails stage_input iteration payload =
    let proposed = payload.proposed_iteration_outcome in
    if is_resolved payload.top_gap_progress && is_minimal payload.residual_uncertainty
    then (
      stop,
      "Guardrail: top_gap 已解决且 residual uncertainty 已降到 minimal，因此收束当前 research iteration。",
      not (is_stop proposed),
    )
    else if is_failed_acquisition payload.evidence_gain
        && is_not_advanced payload.top_gap_progress
        && is_high (iteration_input_budget_pressure stage_input iteration)
    then (
      degrade,
      "Guardrail: acquisition 失败、top_gap 未推进且预算压力高，因此不继续循环，进入降级收束。",
      not (is_degrade proposed),
    )
    else if is_continue proposed
        && leb (remaining_iteration_budget_after_current stage_input iteration) 0
    then if is_gainless payload.evidence_gain && is_standstill payload.top_gap_progress
      then (degrade, "Guardrail: 本轮结束后没有剩余 iteration budget，且本轮没有形成有效推进，因此降级收束。", true)
      else (stop, "Guardrail: 本轮结束后没有剩余 iteration budget，因此不能继续下一轮，转为正常收束。", true)
    else (proposed, payload.proposed_outcome_rationale, false)
