-- ===== src/Executor/RetrievalHistory.antt =====
-- The retrieval history of a research run (app/services/executor/
-- research_retrieval_history_tracker.py): after an iteration its retrieval attempts are compressed
-- and the last 30 of all attempts are kept. `fingerprint` is the hash of a query.
pub mod Window
use vertical_ai_research_act.Prelude.{
  ℕ, ◌-◌, String, Bool, true, false, not, ◌||◌, Option, none, some, List, [], ◌∷◌, ◌++◌, length,
  drop, filter, or_else, get_or, is_empty, string_eq, Eq, ◌==◌, if◌then◌else◌,
}
use vertical_ai_research_act.Prelude.Result.{Result, ok, ◌>>=◌}
use vertical_ai_research_act.Text.{is_given, text_or, normalize_whitespace_or_none}
use vertical_ai_research_act.Domain.Enums.{
  FamilyName, AcquisitionStatus, is_failed_or_empty, RetrievalResultUtility, highly_useful,
  strongly_useful, useful, weakly_useful, not_useful,
}
use vertical_ai_research_act.Domain.Retrieval.{RecentRetrievalAttempt}
use vertical_ai_research_act.Domain.Retrieval.AttemptTrace.{RetrievalAttemptTrace}
use vertical_ai_research_act.Domain.Requests.{ToolExecutionLayerRequest, ToolExecutionLayerResult}
use vertical_ai_research_act.Domain.Evidence.{
  EvidenceProcessingResult, EvidenceProcessingStatus, nothing_processed, processing_failed,
}
use vertical_ai_research_act.Executor.Enums.{
  ResearchEvidenceGain, meaningful_gain, limited_gain, no_meaningful_gain, failed_acquisition,
  ResearchTopGapProgress, resolved, partially_advanced,
}
use vertical_ai_research_act.Executor.Payloads.{LlmNextEvidenceNeedPayload}
use vertical_ai_research_act.Executor.State.{
  ResearchExecutorIterationState, ResearchExecutorRunState, require_current_iteration,
}

abbrev pub max_recent_attempts : ℕ
max_recent_attempts = 30

-- `a or b` for optional texts, where the empty text is false.
abbrev or_text : Option String → Option String → Option String
or_text a b = if is_given a then a else b

abbrev is_unprocessed : Option EvidenceProcessingResult → Bool
is_unprocessed none = true
is_unprocessed (some result) = elim result.processing_status [
  | nothing_processed ↦ true
  | processing_failed ↦ true
  | _ ↦ false
]

abbrev gain_utility :
    Option ResearchEvidenceGain → Option ResearchTopGapProgress → RetrievalResultUtility
gain_utility none progress = weakly_useful
gain_utility (some limited_gain) progress = weakly_useful
gain_utility (some no_meaningful_gain) progress = not_useful
gain_utility (some failed_acquisition) progress = not_useful
gain_utility (some meaningful_gain) (some resolved) = highly_useful
gain_utility (some meaningful_gain) (some partially_advanced) = strongly_useful
gain_utility (some meaningful_gain) _ = useful

-- `_attempt_utility`
unfoldable pub attempt_utility :
    ResearchExecutorIterationState → AcquisitionStatus → RetrievalResultUtility
attempt_utility iteration status =
    if is_failed_or_empty status
    then not_useful
    else if is_unprocessed iteration.evidence_processing_result
        || is_empty iteration.processed_evidence_units
    then not_useful
    else elim iteration.evaluation_state [
      | none ↦ weakly_useful
      | some evaluation ↦ gain_utility evaluation.evidence_gain evaluation.top_gap_progress
    ]

-- `_target_problem`
unfoldable pub target_problem :
    ToolExecutionLayerResult → ResearchExecutorIterationState → Option String
unfolding normalize_whitespace_or_none
target_problem result iteration = normalize_whitespace_or_none (
    or_text result.retrieval_trace.target_problem (elim iteration.tool_execution_request [
      | none ↦ none
      | some request ↦ some request.target_problem
    ]))

-- `attempts_for_target`
unfoldable pub attempts_for_target :
    List RecentRetrievalAttempt → String → List RecentRetrievalAttempt
unfolding filter
attempts_for_target attempts key =
    filter (λ (a : RecentRetrievalAttempt). has_key a.coverage_target_key key) attempts
  where
    has_key : Option String → String → Bool
    has_key none k = false
    has_key (some j) k = j == k

module _ (fingerprint : String → String) where
  -- `query_fingerprint(query) or "no_query"`
  abbrev fingerprint_or : Option String → String
  fingerprint_or none = "no_query"
  fingerprint_or (some query) = text_or (some (fingerprint query)) "no_query"

  -- One attempt, if a family and a problem are known.
  unfoldable pub compress :
      String
      → ToolExecutionLayerResult
      → ResearchExecutorIterationState
      → RetrievalAttemptTrace
      → Option FamilyName
      → Option String
      → List RecentRetrievalAttempt
  unfolding normalize_whitespace_or_none attempt_utility
  compress key result iteration attempt (some family) (some problem) =
      let query = normalize_whitespace_or_none attempt.generated_query in
      let status = get_or attempt.acquisition_status result.acquisition_status in
      record {
        coverage_target_key = some key;
        selected_family = family;
        selected_tool = or_text attempt.selected_tool result.retrieval_trace.selected_tool;
        target_problem = problem;
        generated_query = query;
        query_fingerprint = fingerprint_or query;
        result_status = status;
        result_utility = attempt_utility iteration status;
        fallback_applied = attempt.fallback_applied;
      }
      ∷ []
  compress key result iteration attempt _ _ = []

  -- The loop over the attempts.
  unfoldable pub compressed_attempts :
      String
      → ToolExecutionLayerResult
      → ResearchExecutorIterationState
      → List RetrievalAttemptTrace
      → List RecentRetrievalAttempt
  unfolding compress target_problem
  compressed_attempts key result iteration [] = []
  compressed_attempts key result iteration (attempt ∷ attempts) =
      compress key result iteration attempt
        (or_else attempt.selected_family result.retrieval_trace.selected_family)
        (target_problem result iteration)
      ++ compressed_attempts key result iteration attempts

  -- What an iteration adds to the history.
  unfoldable pub new_attempts :
      ResearchExecutorIterationState
      → Option LlmNextEvidenceNeedPayload
      → List RecentRetrievalAttempt
  unfolding compressed_attempts
  new_attempts iteration none = []
  new_attempts iteration (some need) = elim iteration.tool_execution_result [
    | none ↦ []
    | some result ↦
        compressed_attempts need.coverage_target_key result iteration
          result.retrieval_trace.attempts
  ]

  -- `combined_attempts[-30:]`, unless there is nothing to add.
  unfoldable pub append_recent :
      List RecentRetrievalAttempt → List RecentRetrievalAttempt → List RecentRetrievalAttempt
  append_recent recent added =
      if is_empty added
      then recent
      else drop (length (recent ++ added) - max_recent_attempts) (recent ++ added)

  -- `record_completed_iteration`
  unfoldable pub record_completed_iteration :
      ResearchExecutorRunState → Result ResearchExecutorRunState
  unfolding append_recent new_attempts require_current_iteration
  record_completed_iteration state = do
    iteration ← require_current_iteration state
    ok (record state {
      recent_retrieval_attempts =
          append_recent state.recent_retrieval_attempts
            (new_attempts iteration state.next_evidence_need);
    })
