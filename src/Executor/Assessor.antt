-- ===== src/Executor/Assessor.antt =====
-- The state assessor (app/services/executor/research_state_assessor.py): the language model's
-- assessment is accepted only with a valid coverage snapshot and an action that can be carried out.
pub mod Accepted
use vertical_ai_research_act.Prelude.{
  String, Bool, false, Option, none, some, List, eqb, contains, if◌then◌else◌,
}
use vertical_ai_research_act.Prelude.Result.{Result, ok, raised, value_error, ◌>>=◌}
use vertical_ai_research_act.Prelude.Act
use vertical_ai_research_act.Prelude.Act.{Act}
use vertical_ai_research_act.Text.{normalize_whitespace_or_none}
use vertical_ai_research_act.Domain.Enums.{FamilyName, family_eq}
use vertical_ai_research_act.Executor.Enums.{ResearchActionMode, is_refine}
use vertical_ai_research_act.Executor.Payloads.{
  LlmResearchAssessmentPayload, LlmResearchGapPayload, LlmNextEvidenceNeedPayload,
  LlmResearchAssessmentAndGapsPayload, validate_action_contract,
}
use vertical_ai_research_act.Executor.State.{EvidenceCoverageMap}
use vertical_ai_research_act.Executor.Support.{within_latency}
use vertical_ai_research_act.Executor.Collaborators.{ResearchStateAssessorInput, Collaborators}
use vertical_ai_research_act.Executor.Coverage.Validation.{validated_map}

pub record ResearchStateAssessorOutput : Type 0 where
  pub assessment : LlmResearchAssessmentPayload
  pub identified_gaps : List LlmResearchGapPayload
  pub top_gap : LlmResearchGapPayload
  pub next_evidence_need : LlmNextEvidenceNeedPayload
  pub evidence_coverage_map : EvidenceCoverageMap
  pub prioritization_summary : String
  pub action_mode : ResearchActionMode
  pub preferred_family : Option FamilyName
  pub retrieval_query : Option String
  pub action_rationale : String

-- The schema error that `_parse_research_assessment_output` raises for any refusal.
abbrev pub parsed :
    Result LlmResearchAssessmentAndGapsPayload → Result LlmResearchAssessmentAndGapsPayload
parsed (ok payload) = ok payload
parsed (raised e) =
    raised (value_error "Research assessment LLM response did not match the required schema.")

-- `family in available_families`, for a family that may be missing.
abbrev pub is_available : Option FamilyName → List FamilyName → Bool
is_available none families = false
is_available (some family) families = contains families family

-- `_validate_action_decision`, which also leaves the query with normalised white space.
unfoldable pub validate_action_decision :
    ResearchStateAssessorInput
    → LlmResearchAssessmentAndGapsPayload
    → Result LlmResearchAssessmentAndGapsPayload
unfolding normalize_whitespace_or_none
validate_action_decision assessor_input payload =
    if is_refine payload.action_mode
    then ok payload
    else if is_available payload.preferred_family assessor_input.available_families
    then elim (normalize_whitespace_or_none payload.retrieval_query) [
      | none ↦ raised (value_error "Research assessment retrieval_query must not be empty.")
      | some query ↦ ok (record payload { retrieval_query = some query })
    ]
    else raised (value_error "Research assessment preferred_family is not currently available.")

-- `_assessment_input_budget_pressure`
unfoldable pub assessment_input_budget_pressure : ResearchStateAssessorInput → String
assessment_input_budget_pressure assessor_input =
    if eqb assessor_input.remaining_iteration_budget 1
    then "last_iteration"
    else if within_latency assessor_input.latency_budget_ms 1000
    then "latency_constrained"
    else "normal"

-- The part of `assess` behind the model's answer.
unfoldable pub accept :
    ResearchStateAssessorInput
    → LlmResearchAssessmentAndGapsPayload
    → Result ResearchStateAssessorOutput
unfolding validate_action_contract validate_action_decision validated_map
accept assessor_input answer = do
  payload ← parsed (validate_action_contract answer)
  coverage ←
      validated_map assessor_input.evidence_coverage_map assessor_input.processed_evidence_units
        payload
  decided ← validate_action_decision assessor_input payload
  ok (record {
    assessment = decided.assessment;
    identified_gaps = decided.identified_gaps;
    top_gap = decided.top_gap;
    next_evidence_need = decided.next_evidence_need;
    evidence_coverage_map = coverage;
    prioritization_summary = decided.prioritization_summary;
    action_mode = decided.action_mode;
    preferred_family = decided.preferred_family;
    retrieval_query = decided.retrieval_query;
    action_rationale = decided.action_rationale;
  })

module _ {W : Type 0} (collaborators : Collaborators W) where
  -- `assess`
  unfoldable pub assess : ResearchStateAssessorInput → Act W ResearchStateAssessorOutput
  unfolding accept
  assess assessor_input =
      Act.◌>>=◌ (collaborators.answer_assessment assessor_input)
        λ answer. Act.lift (accept assessor_input answer)
