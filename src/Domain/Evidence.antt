-- ===== src/Domain/Evidence.antt =====
-- Evidence processing as its clients see it (app/domain/models/evidence).
use package.vertical_ai_research_act.Prelude.{ℕ, String, Bool, true, false, Option, List}
use package.vertical_ai_research_act.Domain.Enums.{FamilyName, AcquisitionStatus}
use package.vertical_ai_research_act.Domain.Value.{Dict}
use package.vertical_ai_research_act.Domain.Retrieval.{SourceReference, NormalizedRetrievalItem}
use package.vertical_ai_research_act.Domain.Retrieval.SourceSummary.{RetrievalSourceSummary}
use package.vertical_ai_research_act.Domain.Retrieval.ExecutionSummary.{RetrievalExecutionSummary}
use package.vertical_ai_research_act.Domain.Retrieval.Trace.{RetrievalTrace}
use package.vertical_ai_research_act.Domain.Requests.{ToolExecutionLayerResult}

pub data EvidenceType : Type 0 where
  direct_fact supporting_signal comparison_signal status_signal background_signal : EvidenceType

abbrev pub evidence_type_value : EvidenceType → String
evidence_type_value direct_fact = "direct_fact"
evidence_type_value supporting_signal = "supporting_signal"
evidence_type_value comparison_signal = "comparison_signal"
evidence_type_value status_signal = "status_signal"
evidence_type_value background_signal = "background_signal"

pub record ProcessedEvidenceUnit : Type 0 where
  pub evidence_unit_id : String
  pub source_references : List SourceReference
  pub source_family : Option FamilyName
  pub content : String
  pub evidence_type : EvidenceType
  pub target_problem : Option String
  pub target_scope : Option Dict
  pub evidence_goal : Option String
  pub sub_question : Option String
  pub comparison_candidate : Option String
  pub gap : Option String
  pub metadata : Dict

-- `evidence_type_breakdown` and `source_coverage_summary` as dictionaries of values.
pub record ProcessedEvidenceSummary : Type 0 where
  pub new_evidence_count : ℕ
  pub evidence_type_breakdown : Dict
  pub source_coverage_summary : Dict
  pub metadata : Dict

pub record EvidenceProcessingSummary : Type 0 where
  pub policy : Option String
  pub input_material_count : ℕ
  pub deduped_material_count : ℕ
  pub removed_duplicate_count : ℕ
  pub exact_duplicate_removed : ℕ
  pub high_overlap_removed : ℕ
  pub dropped_material_count : ℕ
  pub structured_evidence_count : ℕ
  pub merged_evidence_count : ℕ
  pub output_evidence_count : ℕ
  pub llm_invalid_output_count : ℕ
  pub upstream_acquisition_status : Option String
  pub upstream_dropped_item_count : ℕ
  pub short_circuit_reason : Option String
  pub observability : Dict

pub data EvidenceProcessingStatus : Type 0 where
  processed partly_processed nothing_processed processing_failed : EvidenceProcessingStatus

abbrev pub processing_status_value : EvidenceProcessingStatus → String
processing_status_value processed = "success"
processing_status_value partly_processed = "partial_success"
processing_status_value nothing_processed = "no_result"
processing_status_value processing_failed = "failed"

-- `processing_status == "failed"`
abbrev pub is_processing_failed : EvidenceProcessingStatus → Bool
is_processing_failed processing_failed = true
is_processing_failed _ = false

pub record EvidenceProcessingResult : Type 0 where
  pub processed_evidence_units : List ProcessedEvidenceUnit
  pub evidence_summary : ProcessedEvidenceSummary
  pub evidence_processing_summary : EvidenceProcessingSummary
  pub processing_status : EvidenceProcessingStatus
  pub error_info : Option String

pub record EvidenceProcessingRequest : Type 0 where
  pub normalized_items : List NormalizedRetrievalItem
  pub acquisition_status : AcquisitionStatus
  pub dropped_item_count : ℕ
  pub source_summary : RetrievalSourceSummary
  pub execution_summary : RetrievalExecutionSummary
  pub retrieval_trace : RetrievalTrace

unfoldable pub from_tool_execution_result : ToolExecutionLayerResult → EvidenceProcessingRequest
from_tool_execution_result result = record {
  normalized_items = result.normalized_items;
  acquisition_status = result.acquisition_status;
  dropped_item_count = result.dropped_item_count;
  source_summary = result.source_summary;
  execution_summary = result.execution_summary;
  retrieval_trace = result.retrieval_trace;
}
