-- ===== src/ToolLayer/Service/Progress.antt =====
-- A round of `execute` ends the loop or leaves less to recover, and a result of it reports a state
-- within the retry budget.
use vertical_ai_research_act.Prelude.{
  ℕ, ◌<◌, ◌≡◌, refl, ◌⊎◌, inl, inr, String, Option, none, some, List, arith,
}
use vertical_ai_research_act.Prelude.Result.{Result, ok, raised}
use vertical_ai_research_act.Prelude.Act.{Ensures, Ensures-bind, Ensures-lift, Returned}
use vertical_ai_research_act.Domain.Enums.{FamilyName}
use vertical_ai_research_act.Domain.Requests.{
  RetrievalQueryGenerationResult, ToolExecutionLayerRequest, ToolExecutionLayerResult,
}
use vertical_ai_research_act.ToolLayer.Service.{
  Next, again, finish, finish_with, directed, settle, round,
}
use vertical_ai_research_act.ToolLayer.Service.State.{
  Services, ToolExecutionLayerRunState, ToolExecutionLayerAttemptOutcome, create_execution_state,
}
use vertical_ai_research_act.ToolLayer.Service.Attempt.{run_attempt}
use vertical_ai_research_act.ToolLayer.Service.Recovery.{ExecutionDirective, go_on, complete}
use vertical_ai_research_act.ToolLayer.Service.Report.{failed_from_state, completed_from_state}
use vertical_ai_research_act.ToolLayer.Service.Frame.{Resumes, IsAttemptOf, run_attempt-IsAttemptOf}
use vertical_ai_research_act.ToolLayer.Service.Budget.{
  left_for, IsOnBudget, IsWithinBudget, IsWithinBudget-of, IsOnBudget-frame, left_for-frame,
}
use vertical_ai_research_act.ToolLayer.Service.Spending.{IsStep, apply_evaluation_result-IsStep}

module _ {W : Type 0} (services : Services W) (request : ToolExecutionLayerRequest) where
  -- The result reports a final state that has kept to the retry budget.
  pub record IsReport (result : ToolExecutionLayerResult) : Type 0 where
    pub state : ToolExecutionLayerRunState
    pub within : IsWithinBudget request.retry_budget state
    pub reports :
        ((error : String) × (failed_from_state services request state error ≡ ok result))
        ⊎ (completed_from_state services request state ≡ ok result)

  -- What a round leads to, with less than `limit` left when it asks for another.
  abbrev pub IsNext : ℕ → Next → Type 0
  IsNext limit (again state) =
      IsOnBudget request.retry_budget 0 state.retry_context state
      × (left_for request.retry_budget state.retry_context state < limit)
  IsNext limit (finish result) = IsReport result

  finish_with-IsNext :
      (limit : ℕ) (r : Result ToolExecutionLayerResult)
      → ((result : ToolExecutionLayerResult) → r ≡ ok result → IsReport result)
      → Returned (IsNext limit) (finish_with services r)
  unfolding finish_with
  finish_with-IsNext limit (ok result) h = h result refl
  finish_with-IsNext limit (raised e) h = tt

  directed-IsNext :
      (limit : ℕ) (next : ToolExecutionLayerRunState × ExecutionDirective)
      → IsStep request.retry_budget limit next
      → Returned (IsNext limit) (directed services request next)
  unfolding directed
  directed-IsNext limit (state, go_on) h = h
  directed-IsNext limit (state, complete) h =
      finish_with-IsNext limit _ (λ result p. record { state = state; within = h; reports = inr p })

  settle-IsNext :
      (context : Option (FamilyName × RetrievalQueryGenerationResult))
      (after : ToolExecutionLayerRunState) (outcome : ToolExecutionLayerAttemptOutcome)
      (error : Option String)
      → IsOnBudget request.retry_budget 0 context after
      → Resumes context outcome
      → after.retry_context ≡ none
      → Returned
          (IsNext (left_for request.retry_budget context after))
          (settle services request after outcome error)
  unfolding settle
  settle-IsNext context after outcome (some error) h resumes fresh =
      finish_with-IsNext _ _ (λ result p. record {
        state = after;
        within = IsWithinBudget-of request.retry_budget 0 context after (omega arith) h;
        reports = inl (error, p);
      })
  settle-IsNext context after outcome none h resumes fresh =
      directed-IsNext _ _
        (apply_evaluation_result-IsStep services request context after outcome h resumes fresh)

  module _ (available : List FamilyName) where
    pub round-IsNext :
        (before : ToolExecutionLayerRunState)
        → IsOnBudget request.retry_budget 0 before.retry_context before
        → Ensures
            (IsNext (left_for request.retry_budget before.retry_context before))
            (round services request available before)
    unfolding round
    round-IsNext before h =
        Ensures-bind (IsAttemptOf before before.retry_context) _
          (run_attempt services request available before) _
          (run_attempt-IsAttemptOf services request available before)
          (λ (after, outcome) (frame, resumes). Ensures-lift _ _ (
            rw (← left_for-frame request.retry_budget before.retry_context before after frame) (
              settle-IsNext before.retry_context after outcome outcome.error_info
                (IsOnBudget-frame request.retry_budget before.retry_context before after frame h)
                resumes frame.context_consumed)))

pub create_execution_state-IsOnBudget :
    (request : ToolExecutionLayerRequest)
    → IsOnBudget request.retry_budget 0 none (create_execution_state request)
unfolding create_execution_state
create_execution_state-IsOnBudget request = record {
  counts_within = λ f. omega arith;
  recovered = refl;
  traced = omega arith;
  spent = omega arith;
}
