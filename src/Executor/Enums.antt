-- ===== src/Executor/Enums.antt =====
-- The enumerations of app/services/executor/enums. Each member `NONE` is named for its enumeration,
-- since one name cannot stand for all of them.
use vertical_ai_research_act.Prelude.{Bool, true, false, String}

pub data ResearchActionMode : Type 0 where
  refine_from_existing_state memory_backed_acquisition external_acquisition : ResearchActionMode

pub data ResearchCoverageStatus : Type 0 where
  covered partially_covered not_covered : ResearchCoverageStatus

pub data ResearchCoverageTargetType : Type 0 where
  objective sub_question comparison_candidate : ResearchCoverageTargetType

pub data ResearchDesiredEvidenceKind : Type 0 where
  direct_fact stronger_supporting_evidence disambiguating_evidence comparison_evidence :
      ResearchDesiredEvidenceKind
  fresh_status_evidence decision_supporting_evidence no_evidence_kind : ResearchDesiredEvidenceKind

pub data ResearchEvidenceGain : Type 0 where
  meaningful_gain limited_gain no_meaningful_gain failed_acquisition : ResearchEvidenceGain

pub data ResearchFindingMaturity : Type 0 where
  tentative partially_stable stable blocked : ResearchFindingMaturity

pub data ResearchFindingProgress : Type 0 where
  improved_to_stable improved_but_not_stable no_material_change became_less_certain :
      ResearchFindingProgress

pub data ResearchFreshnessRequirement : Type 0 where
  normal fresh_preferred fresh_required no_freshness : ResearchFreshnessRequirement

pub data ResearchGapNature : Type 0 where
  missing weak ambiguous conflicting imbalanced stale not_actionable no_gap : ResearchGapNature

pub data ResearchGapScope : Type 0 where
  objective_level sub_question_level comparison_level candidate_level dimension_level
        finding_level :
      ResearchGapScope
  recommendation_readiness_level : ResearchGapScope

pub data ResearchGapSeverity : Type 0 where
  blocking important optional no_severity : ResearchGapSeverity

pub data ResearchIterationOutcome : Type 0 where
  continue stop degrade : ResearchIterationOutcome

pub data ResearchMinimumSupportRequirement : Type 0 where
  any_relevant_signal moderate_support_required strong_support no_support_required :
      ResearchMinimumSupportRequirement

pub data ResearchNeedPurpose : Type 0 where
  establish_coverage strengthen_support resolve_ambiguity resolve_conflict rebalance_comparison :
      ResearchNeedPurpose
  refresh_status improve_actionability no_purpose : ResearchNeedPurpose

pub data ResearchResidualUncertainty : Type 0 where
  high moderate low minimal : ResearchResidualUncertainty

pub data ResearchSupportStrength : Type 0 where
  strong_enough moderate_support weak_support conflicting_support insufficient_support :
      ResearchSupportStrength

pub data ResearchTopGapProgress : Type 0 where
  resolved partially_advanced not_advanced regressed : ResearchTopGapProgress

-- `purpose.value`
abbrev pub purpose_value : ResearchNeedPurpose → String
purpose_value establish_coverage = "establish_coverage"
purpose_value strengthen_support = "strengthen_support"
purpose_value resolve_ambiguity = "resolve_ambiguity"
purpose_value resolve_conflict = "resolve_conflict"
purpose_value rebalance_comparison = "rebalance_comparison"
purpose_value refresh_status = "refresh_status"
purpose_value improve_actionability = "improve_actionability"
purpose_value no_purpose = "none"

-- Comparisons of a member with one value.
abbrev pub is_refine : ResearchActionMode → Bool
is_refine refine_from_existing_state = true
is_refine _ = false

abbrev pub is_memory_backed : ResearchActionMode → Bool
is_memory_backed memory_backed_acquisition = true
is_memory_backed _ = false

abbrev pub is_continue : ResearchIterationOutcome → Bool
is_continue continue = true
is_continue _ = false

abbrev pub is_stop : ResearchIterationOutcome → Bool
is_stop stop = true
is_stop _ = false

abbrev pub is_degrade : ResearchIterationOutcome → Bool
is_degrade degrade = true
is_degrade _ = false

abbrev pub is_no_gap : ResearchGapNature → Bool
is_no_gap no_gap = true
is_no_gap _ = false

abbrev pub is_no_severity : ResearchGapSeverity → Bool
is_no_severity no_severity = true
is_no_severity _ = false

abbrev pub is_no_purpose : ResearchNeedPurpose → Bool
is_no_purpose no_purpose = true
is_no_purpose _ = false

abbrev pub is_no_evidence_kind : ResearchDesiredEvidenceKind → Bool
is_no_evidence_kind no_evidence_kind = true
is_no_evidence_kind _ = false
