-- ===== src/ToolLayer/Service/Spending.antt =====
-- What one round's recovery spends of the retry budget.
use vertical_ai_research_act.Prelude.{
  ℕ, ◌+◌, ◌-◌, ◌≤◌, ◌<◌, ◌≡◌, refl, ◌∙◌, sym, ap, String, Option, none, some, arith, Bool-cases,
  inl, inr, ◌==◌, ==-refl, leb,
}
use vertical_ai_research_act.Domain.Enums.{FamilyName, family_eq}
use vertical_ai_research_act.Domain.Families.{BaseFamilyExecutionResult}
use vertical_ai_research_act.Domain.Requests.{
  RetrievalQueryGenerationResult, RequestCompletionEvaluationResult, RecoveryAction, continue,
  retry_same_tool, fallback, stop, NextStepHint, hint_none, hint_continue, hint_retry,
  hint_same_family, hint_broader, hint_stop, ToolExecutionLayerRequest,
}
use vertical_ai_research_act.ToolLayer.Service.State.{
  Services, ToolExecutionLayerRunState, ToolExecutionLayerAttemptOutcome,
}
use vertical_ai_research_act.ToolLayer.Service.Recovery.{
  ExecutionDirective, go_on, complete, schedule_retry, apply_fallback, apply_action, apply_present,
  apply_evaluation_result, set_count, exhausted,
}
use vertical_ai_research_act.ToolLayer.Service.Record.{record_present, record_attempt}
use vertical_ai_research_act.ToolLayer.Service.Frame.{Resumes}
use vertical_ai_research_act.ToolLayer.Service.Budget.{
  retries_left, left_for, fallback_count, IsOnBudget, IsWithinBudget, retries-bounded,
  unused-fallback, IsWithinBudget-of, record_present-IsOnBudget,
}

-- After a round's recovery: go on with less left, or be done within the budget.
abbrev pub IsStep : ℕ → ℕ → ToolExecutionLayerRunState × ExecutionDirective → Type 0
IsStep budget limit (state, go_on) =
    IsOnBudget budget 0 state.retry_context state
    × (left_for budget state.retry_context state < limit)
IsStep budget limit (state, complete) = IsWithinBudget budget state

-- The scheduled family is the one that the attempt ran.
abbrev Fits : Option (FamilyName × RetrievalQueryGenerationResult) → FamilyName → Type 0
Fits none family = Unit
Fits (some (f, query)) family = f ≡ family

retries_left-Fits :
    (budget : ℕ) (counts : FamilyName → ℕ)
    (context : Option (FamilyName × RetrievalQueryGenerationResult)) (family : FamilyName)
    → Fits context family
    → budget - counts family ≤ retries_left budget counts context
retries_left-Fits budget counts none family h = omega arith
retries_left-Fits budget counts (some (f, query)) family h = rw h (omega arith)

set_count-same :
    (counts : FamilyName → ℕ) (family : FamilyName) (count : ℕ)
    → set_count counts family count family ≡ count
set_count-same counts family count = rw (==-refl family)

set_count-within :
    (budget : ℕ) (counts : FamilyName → ℕ) (family : FamilyName) (count : ℕ)
    → count ≤ budget
    → ((f : FamilyName) → counts f ≤ budget)
    → (f : FamilyName) → set_count counts family count f ≤ budget
set_count-within budget counts family count le h f = elim (Bool-cases (f == family)) [
  | inl e ↦ rw e le
  | inr e ↦ rw e (h f)
]

module _ (request : ToolExecutionLayerRequest)
    (context : Option (FamilyName × RetrievalQueryGenerationResult))
    (state : ToolExecutionLayerRunState)
    (on_budget : IsOnBudget request.retry_budget 1 context state) where
  -- To be exhausted only names the reason.
  exhausted-IsOnBudget :
      (reason : String) → IsOnBudget request.retry_budget 1 context (exhausted reason state).0
  exhausted-IsOnBudget reason = record {
    counts_within = on_budget.counts_within;
    recovered = on_budget.recovered;
    traced = on_budget.traced;
    spent = on_budget.spent;
  }

  exhausted-IsWithin :
      (reason : String) → IsWithinBudget request.retry_budget (exhausted reason state).0
  exhausted-IsWithin reason =
      IsWithinBudget-of request.retry_budget 1 context (exhausted reason state).0 (omega arith)
        (exhausted-IsOnBudget reason)

  module _ (family : FamilyName) (query : RetrievalQueryGenerationResult)
      (fits : Fits context family)
      (free : state.retry_counts_by_family family < request.retry_budget) where
    scheduled : ToolExecutionLayerRunState
    scheduled = record state {
      retry_count = state.retry_count + 1;
      retry_counts_by_family =
          set_count state.retry_counts_by_family family (state.retry_counts_by_family family + 1);
      recovery_attempt_count = state.recovery_attempt_count + 1;
      retry_context = some (family, query);
    }

    scheduled-left :
        left_for request.retry_budget (some (family, query)) scheduled
        < left_for request.retry_budget context state
    unfolding scheduled
    scheduled-left =
        let h =
          retries_left-Fits request.retry_budget state.retry_counts_by_family context family fits in
        rw
          (set_count-same state.retry_counts_by_family family
            (state.retry_counts_by_family family + 1))
          (omega arith)

    scheduled-IsOnBudget : IsOnBudget request.retry_budget 0 (some (family, query)) scheduled
    unfolding scheduled
    scheduled-IsOnBudget = record {
      counts_within =
          set_count-within request.retry_budget state.retry_counts_by_family family _ (omega arith)
            on_budget.counts_within;
      recovered = omega arith;
      traced = omega arith;
      spent = let h = scheduled-left in let k = on_budget.spent in omega arith;
    }

  schedule_retry-IsStep :
      (family : FamilyName) (query : RetrievalQueryGenerationResult)
      → Fits context family
      → IsStep request.retry_budget
          (left_for request.retry_budget context state)
          (schedule_retry request state family query)
  unfolding schedule_retry scheduled
  schedule_retry-IsStep family query fits =
      elim (Bool-cases (leb request.retry_budget (state.retry_counts_by_family family))) [
        | inl spent ↦ rw spent (exhausted-IsWithin "retry_budget_exhausted")
        | inr free ↦ rw free (
          scheduled-IsOnBudget family query fits (ground arith),
          scheduled-left family query fits (ground arith),
        )
      ]

  apply_fallback-IsStep :
      (family : FamilyName)
      → state.retry_context ≡ none
      → IsStep request.retry_budget
          (left_for request.retry_budget context state)
          (apply_fallback state family)
  unfolding apply_fallback
  apply_fallback-IsStep family fresh = elim (Bool-cases state.fallback_applied) [
    | inl applied ↦ rw applied (record {
      counts_bounded = on_budget.counts_within;
      retries_bounded =
          retries-bounded request.retry_budget state.retry_count state.recovery_attempt_count _
            state.fallback_applied on_budget.recovered on_budget.spent;
      recoveries_counted =
          on_budget.recovered ∙ ap (λ b. state.retry_count + fallback_count b) applied;
      attempts_bounded = on_budget.traced;
    })
    | inr fresh_one ↦ rw fresh_one (
      record {
        counts_within = on_budget.counts_within;
        recovered =
            let h =
              on_budget.recovered ∙ ap (λ b. state.retry_count + fallback_count b) fresh_one in
            omega arith;
        traced = let h = on_budget.traced in omega arith;
        spent = rw fresh (
            unused-fallback request.retry_budget state.recovery_attempt_count _
              state.fallback_applied fresh_one on_budget.spent);
      },
      rw fresh (omega arith),
    )
  ]

  apply_action-IsStep :
      (family : FamilyName) (query : RetrievalQueryGenerationResult)
      (action : Option RecoveryAction) (hint : Option NextStepHint)
      → Fits context family
      → state.retry_context ≡ none
      → IsStep request.retry_budget
          (left_for request.retry_budget context state)
          (apply_action request state family query action hint)
  unfolding apply_action
  apply_action-IsStep family query none hint fits fresh = exhausted-IsWithin _
  apply_action-IsStep family query (some continue) hint fits fresh = exhausted-IsWithin _
  apply_action-IsStep family query (some retry_same_tool) hint fits fresh =
      schedule_retry-IsStep family query fits
  apply_action-IsStep family query (some stop) hint fits fresh =
      IsWithinBudget-of request.retry_budget 1 context state (omega arith) on_budget
  apply_action-IsStep family query (some fallback) (some hint_broader) fits fresh =
      apply_fallback-IsStep family fresh
  apply_action-IsStep family query (some fallback) none fits fresh = exhausted-IsWithin _
  apply_action-IsStep family query (some fallback) (some hint_none) fits fresh =
      exhausted-IsWithin _
  apply_action-IsStep family query (some fallback) (some hint_continue) fits fresh =
      exhausted-IsWithin _
  apply_action-IsStep family query (some fallback) (some hint_retry) fits fresh =
      exhausted-IsWithin _
  apply_action-IsStep family query (some fallback) (some hint_same_family) fits fresh =
      exhausted-IsWithin _
  apply_action-IsStep family query (some fallback) (some hint_stop) fits fresh =
      exhausted-IsWithin _

  apply_present-IsStep :
      (family : Option FamilyName) (query : Option RetrievalQueryGenerationResult)
      (evaluation : Option RequestCompletionEvaluationResult)
      → ((f : FamilyName) → family ≡ some f → Fits context f)
      → state.retry_context ≡ none
      → IsStep request.retry_budget
          (left_for request.retry_budget context state)
          (apply_present request state family query evaluation)
  unfolding apply_present
  apply_present-IsStep (some family) (some query) (some evaluation) fits fresh =
      apply_action-IsStep family query _ _ (fits family refl) fresh
  apply_present-IsStep none query evaluation fits fresh = exhausted-IsWithin _
  apply_present-IsStep (some family) none evaluation fits fresh = exhausted-IsWithin _
  apply_present-IsStep (some family) (some query) none fits fresh = exhausted-IsWithin _

-- What the outcome resumes is the family that it ran.
Fits-Resumes :
    (context : Option (FamilyName × RetrievalQueryGenerationResult))
    (outcome : ToolExecutionLayerAttemptOutcome) (family : FamilyName)
    → Resumes context outcome
    → outcome.selected_family ≡ some family
    → Fits context family
Fits-Resumes none outcome family h p = tt
Fits-Resumes (some (f, query)) outcome family h p = cc (h.0, p)

record_attempt-context :
    {W : Type 0} (services : Services W) (state : ToolExecutionLayerRunState)
    (family : Option FamilyName) (query : Option RetrievalQueryGenerationResult)
    (result : Option BaseFamilyExecutionResult)
    (evaluation : Option RequestCompletionEvaluationResult) (reason : Option String)
    (context : Option (FamilyName × RetrievalQueryGenerationResult)) (budget : ℕ)
    → ((record_present services state family query result evaluation reason).retry_context
        ≡ state.retry_context)
      × (left_for budget context
            (record_present services state family query result evaluation reason)
          ≡ left_for budget context state)
unfolding record_present
record_attempt-context services state (some f) (some q) (some r) (some e) reason context budget =
    (refl, refl)
record_attempt-context services state none query result evaluation reason context budget =
    (refl, refl)
record_attempt-context services state (some f) none result evaluation reason context budget =
    (refl, refl)
record_attempt-context services state (some f) (some q) none evaluation reason context budget =
    (refl, refl)
record_attempt-context services state (some f) (some q) (some r) none reason context budget =
    (refl, refl)

-- If the state is on budget, the outcome is that of the scheduled retry, and no retry is scheduled any
-- more, then after the trace and the recovery the service either goes on, on budget and with less left
-- to recover, or completes within the budget.
pub apply_evaluation_result-IsStep :
    {W : Type 0} (services : Services W) (request : ToolExecutionLayerRequest)
    (context : Option (FamilyName × RetrievalQueryGenerationResult))
    (state : ToolExecutionLayerRunState) (outcome : ToolExecutionLayerAttemptOutcome)
    → IsOnBudget request.retry_budget 0 context state
    → Resumes context outcome
    → state.retry_context ≡ none
    → IsStep request.retry_budget
        (left_for request.retry_budget context state)
        (apply_evaluation_result request (record_attempt services state outcome) outcome)
unfolding apply_evaluation_result record_attempt
apply_evaluation_result-IsStep services request context state outcome h resumes fresh =
    let (kept, same) =
      record_attempt-context services state outcome.selected_family outcome.query_generation_result
        outcome.family_result outcome.evaluation_result outcome.execution_failure_reason context
        request.retry_budget in
    rw (sym same) (
      apply_present-IsStep request context _
        (record_present-IsOnBudget services request.retry_budget context state
          outcome.selected_family outcome.query_generation_result outcome.family_result
          outcome.evaluation_result outcome.execution_failure_reason h)
        outcome.selected_family outcome.query_generation_result outcome.evaluation_result
        (λ f p. Fits-Resumes context outcome f resumes p) (kept ∙ fresh))
