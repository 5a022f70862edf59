-- ===== src/Tests/Executor.antt =====
-- Runs of the retrieval history.
use vertical_ai_research_act.Prelude.{
  ◌≤◌, ◌≡◌, refl, String, false, none, some, List, [], ◌∷◌, ◌++◌, All, length, arith,
}
use vertical_ai_research_act.Prelude.Result.{ok}
use vertical_ai_research_act.Text.{is_space}
use vertical_ai_research_act.Domain.Enums.{web_search, failed}
use vertical_ai_research_act.Domain.Retrieval.{RecentRetrievalAttempt}
use vertical_ai_research_act.Domain.Requests.{ToolExecutionLayerResult}
use vertical_ai_research_act.Domain.Value.{empty}
use vertical_ai_research_act.ToolLayer.Service.Families.{failed_family_result}
use vertical_ai_research_act.Executor.State.{
  ResearchExecutorIterationState, ResearchExecutorRunState,
}
use vertical_ai_research_act.Executor.RetrievalHistory.{
  max_recent_attempts, new_attempts, record_completed_iteration,
}
use vertical_ai_research_act.Executor.RetrievalHistory.Window.{
  last_attempts, IsRecorded, record_completed_iteration-last, new_attempts-IsRecorded,
}
use vertical_ai_research_act.Tests.Data.{failed_search, layer_request, no_result}
use vertical_ai_research_act.Tests.ExecutorData.{need, first_iteration, first_state}

abbrev hashed : String → String
hashed s = "f00d"

-- A search that failed.
abbrev searched : ToolExecutionLayerResult
searched = record no_result {
  retrieval_trace = record failed_search.retrieval_trace {
    attempts =
        record {
          selected_family = some web_search;
          selected_tool = none;
          generated_query = some "release  notes";
          query_focus = none;
          acquisition_status = some failed;
          evaluation_status = none;
          recovery_action = none;
          next_step_hint = none;
          retry_count = 0;
          fallback_applied = false;
          metadata = empty;
        }
        ∷ [];
  };
}

abbrev iteration : ResearchExecutorIterationState
iteration = record first_iteration {
  tool_execution_request = some layer_request;
  tool_execution_result = some searched;
}

abbrev run : ResearchExecutorRunState
run = record first_state { current_iteration = some iteration }

one_attempt : length (new_attempts hashed iteration (some need)) ≡ 1
unfolding new_attempts failed_family_result is_space
one_attempt = refl

abbrev history : List RecentRetrievalAttempt
history = last_attempts ([] ++ new_attempts hashed iteration (some need))

record_completed_iteration-last_example :
    (record_completed_iteration hashed run
      ≡ ok (record run { recent_retrieval_attempts = history }))
    × (length history ≤ max_recent_attempts)
record_completed_iteration-last_example =
    record_completed_iteration-last hashed run iteration refl (omega arith)

new_attempts-IsRecorded_example :
    All (IsRecorded (some need)) (new_attempts hashed iteration (some need))
new_attempts-IsRecorded_example = new_attempts-IsRecorded hashed iteration (some need)
