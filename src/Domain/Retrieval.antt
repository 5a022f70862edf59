-- ===== src/Domain/Retrieval.antt =====
-- Retrieval outputs (app/domain/models/retrieval, app/domain/models/source): the candidate
-- material, the summaries and the trace that tools, families and the tool execution layer share.
pub mod Pydantic
pub mod SourceSummary
pub mod ExecutionSummary
pub mod AttemptTrace
pub mod Trace
use package.vertical_ai_research_act.Prelude.{ℕ, String, Bool, Option, List}
use package.vertical_ai_research_act.Prelude.Int.{ℤ}
use package.vertical_ai_research_act.Domain.Enums.{
  FamilyName, AcquisitionStatus, RetrievalResultUtility,
}
use package.vertical_ai_research_act.Domain.Value.{Dict}

pub record SourceEvidenceSpan : Type 0 where
  pub page : Option ℕ
  pub section : Option String
  pub paragraph : Option ℕ
  pub line_start : Option ℕ
  pub line_end : Option ℕ
  pub char_start : Option ℕ
  pub char_end : Option ℕ
  pub metadata : Dict

-- A `datetime` is its number of microseconds from the epoch.
pub record SourceReference : Type 0 where
  pub source_type : String
  pub sub_source_type : Option String
  pub source_id : Option String
  pub source_id_type : Option String
  pub source_url : Option String
  pub title : Option String
  pub authors : List String
  pub publisher : Option String
  pub published_at : Option ℤ
  pub retrieved_at : Option ℤ
  pub evidence_span : Option SourceEvidenceSpan
  pub citation_text : Option String
  pub source_ref_id : Option String
  pub metadata : Dict

pub record NormalizedRetrievalItem : Type 0 where
  pub item_id : String
  pub source_family : Option FamilyName
  pub source_references : List SourceReference
  pub content : String
  pub content_type : Option String
  pub metadata : Dict

pub record RecentRetrievalAttempt : Type 0 where
  pub coverage_target_key : Option String
  pub selected_family : FamilyName
  pub selected_tool : Option String
  pub target_problem : String
  pub generated_query : Option String
  pub query_fingerprint : String
  pub result_status : AcquisitionStatus
  pub result_utility : RetrievalResultUtility
  pub fallback_applied : Bool
