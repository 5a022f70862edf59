-- ===== src/Executor/Payloads.antt =====
-- What the language model answers to the executor (app/services/executor/models/llm_*.py), as
-- records of fields that pydantic has read, and the validator of the assessment.
use vertical_ai_research_act.Prelude.{
  String, Bool, true, false, Option, none, some, List, if◌then◌else◌,
}
use vertical_ai_research_act.Prelude.Result.{Result, ok, raised, value_error, ◌>>=◌}
use vertical_ai_research_act.Text.{strip_or_none}
use vertical_ai_research_act.Domain.Enums.{FamilyName, research_knowledge_recall}
use vertical_ai_research_act.Executor.Enums.{
  ResearchActionMode, refine_from_existing_state, memory_backed_acquisition, external_acquisition,
  ResearchCoverageStatus, ResearchDesiredEvidenceKind, ResearchEvidenceGain,
  ResearchFindingMaturity, ResearchFindingProgress, ResearchFreshnessRequirement, ResearchGapNature,
  ResearchGapScope, ResearchGapSeverity, ResearchIterationOutcome,
  ResearchMinimumSupportRequirement, ResearchNeedPurpose, ResearchResidualUncertainty,
  ResearchSupportStrength, ResearchTopGapProgress,
}

pub record LlmResearchAssessmentPayload : Type 0 where
  pub coverage_status : ResearchCoverageStatus
  pub support_strength : ResearchSupportStrength
  pub finding_maturity : ResearchFindingMaturity
  pub assessment_summary : String

pub record LlmResearchGapPayload : Type 0 where
  pub gap_scope : ResearchGapScope
  pub gap_nature : ResearchGapNature
  pub gap_severity : ResearchGapSeverity
  pub gap_summary : String
  pub gap_target : Option String
  pub gap_actionability : Option String

pub record LlmNextEvidenceNeedPayload : Type 0 where
  pub need_scope : ResearchGapScope
  pub need_target : Option String
  pub need_purpose : ResearchNeedPurpose
  pub desired_evidence_kind : ResearchDesiredEvidenceKind
  pub freshness_requirement : ResearchFreshnessRequirement
  pub minimum_support_requirement : ResearchMinimumSupportRequirement
  pub need_summary : String
  pub coverage_target_key : String

pub record LlmEvidenceCoverageEntryPayload : Type 0 where
  pub target_key : String
  pub coverage_status : ResearchCoverageStatus
  pub supporting_evidence_keys : List String
  pub uncovered_aspects : List String
  pub coverage_summary : String

pub record LlmResearchAssessmentAndGapsPayload : Type 0 where
  pub assessment : LlmResearchAssessmentPayload
  pub identified_gaps : List LlmResearchGapPayload
  pub top_gap : LlmResearchGapPayload
  pub next_evidence_need : LlmNextEvidenceNeedPayload
  pub evidence_coverage_snapshot : List LlmEvidenceCoverageEntryPayload
  pub prioritization_summary : String
  pub action_mode : ResearchActionMode
  pub preferred_family : Option FamilyName
  pub retrieval_query : Option String
  pub action_rationale : String

pub record LlmIntermediateFindingsPayload : Type 0 where
  pub intermediate_findings : List String
  pub finding_caveats : List String

pub record LlmIterationOutcomePayload : Type 0 where
  pub top_gap_progress : ResearchTopGapProgress
  pub evidence_gain : ResearchEvidenceGain
  pub finding_progress : ResearchFindingProgress
  pub residual_uncertainty : ResearchResidualUncertainty
  pub proposed_iteration_outcome : ResearchIterationOutcome
  pub proposed_outcome_rationale : String

-- `family in {docs_search, paper_search, web_search}`
abbrev pub is_external_family : FamilyName → Bool
is_external_family research_knowledge_recall = false
is_external_family _ = true

-- The tests of the validator, on the mode, the family and the stripped query.
abbrev pub check_action_contract :
    ResearchActionMode → Option FamilyName → Option String → Result (Unit {0})
check_action_contract refine_from_existing_state none none = ok tt
check_action_contract refine_from_existing_state _ _ =
    raised
      (value_error "refine_from_existing_state requires null preferred_family and retrieval_query.")
check_action_contract memory_backed_acquisition _ none =
    raised (value_error "Acquisition action modes require a non-empty retrieval_query.")
check_action_contract external_acquisition _ none =
    raised (value_error "Acquisition action modes require a non-empty retrieval_query.")
check_action_contract memory_backed_acquisition (some research_knowledge_recall) (some query) =
    ok tt
check_action_contract memory_backed_acquisition _ (some query) =
    raised (value_error "memory_backed_acquisition requires research_knowledge_recall.")
check_action_contract external_acquisition none (some query) =
    raised (value_error "external_acquisition requires docs_search, paper_search, or web_search.")
check_action_contract external_acquisition (some family) (some query) =
    if is_external_family family
    then ok tt
    else raised
        (value_error "external_acquisition requires docs_search, paper_search, or web_search.")

-- `validate_action_contract`, which also leaves the query stripped.
unfoldable pub validate_action_contract :
    LlmResearchAssessmentAndGapsPayload → Result LlmResearchAssessmentAndGapsPayload
unfolding strip_or_none
validate_action_contract payload =
    let query = strip_or_none payload.retrieval_query in
    do
      checked ← check_action_contract payload.action_mode payload.preferred_family query
      ok (record payload { retrieval_query = query })
