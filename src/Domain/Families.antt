-- ===== src/Domain/Families.antt =====
-- What passes between the tool execution layer and the family services
-- (app/domain/models/families): one request model for each family, and the common result.
use package.vertical_ai_research_act.Prelude.{ℕ, String, Option, List}
use package.vertical_ai_research_act.Domain.Enums.{FamilyName, AcquisitionStatus}
use package.vertical_ai_research_act.Domain.Value.{Float}
use package.vertical_ai_research_act.Domain.Retrieval.{NormalizedRetrievalItem}
use package.vertical_ai_research_act.Domain.Retrieval.SourceSummary.{RetrievalSourceSummary}
use package.vertical_ai_research_act.Domain.Retrieval.ExecutionSummary.{RetrievalExecutionSummary}
use package.vertical_ai_research_act.Domain.Retrieval.Trace.{RetrievalTrace}

pub record BaseFamilyExecutionResult : Type 0 where
  pub normalized_items : List NormalizedRetrievalItem
  pub acquisition_status : AcquisitionStatus
  pub dropped_item_count : ℕ
  pub source_summary : RetrievalSourceSummary
  pub execution_summary : RetrievalExecutionSummary
  pub retrieval_trace : RetrievalTrace
  pub error_info : Option String
  pub selected_family : FamilyName
  pub candidate_tools : List String
  pub selected_tool : Option String

pub record DocsSearchFamilyRequest : Type 0 where
  pub query_text : String
  pub target_problem : Option String
  pub freshness_requirement : Option String
  pub sub_source_types : List String
  pub max_search_results : ℕ
  pub preferred_tool : Option String

pub record PaperSearchFamilyRequest : Type 0 where
  pub query_text : String
  pub max_search_results : ℕ
  pub max_content_fetches : ℕ
  pub preferred_tool : Option String

pub record WebSearchFamilyRequest : Type 0 where
  pub query_text : String
  pub target_problem : Option String
  pub freshness_requirement : Option String
  pub include_domains : List String
  pub exclude_domains : List String
  pub max_search_results : ℕ
  pub max_content_fetches : ℕ
  pub min_score_threshold : Float
  pub preferred_tool : Option String

pub record ResearchKnowledgeRecallFamilyRequest : Type 0 where
  pub owner_user_id : String
  pub query_text : Option String
  pub query_embedding : Option (List Float)
  pub project_scope_id : Option String
  pub allowed_visibility_scopes : List String
  pub knowledge_types : List String
  pub topic_tags : List String
  pub source_types : List String
  pub limit : ℕ
  pub preferred_tool : Option String

-- The request that a family service is run on.
pub data FamilyRequest : Type 0 where
  docs_request : DocsSearchFamilyRequest → FamilyRequest
  paper_request : PaperSearchFamilyRequest → FamilyRequest
  web_request : WebSearchFamilyRequest → FamilyRequest
  recall_request : ResearchKnowledgeRecallFamilyRequest → FamilyRequest
