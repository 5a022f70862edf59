-- ===== src/Executor/Outcome/Guardrails.antt =====
-- What the rules and the guardrails of the outcome evaluator guarantee.
use vertical_ai_research_act.Prelude.{
  ◌≡◌, ◌<◌, refl, String, Bool, true, false, not, ◌||◌, Option, none, some, arith, if◌then◌else◌,
}
use vertical_ai_research_act.Prelude.Result.{ok}
use vertical_ai_research_act.Prelude.Act.{Ensures, Ensures-then, Ensures-pure}
use vertical_ai_research_act.Domain.ResearchStage.{ResearchStageInput}
use vertical_ai_research_act.Executor.Enums.{
  ResearchIterationOutcome, continue, stop, degrade, is_continue, is_stop, is_degrade,
}
use vertical_ai_research_act.Executor.Payloads.{LlmIterationOutcomePayload}
use vertical_ai_research_act.Executor.State.{
  ResearchExecutorIterationState, ResearchExecutorRunState, require_current_iteration,
}
use vertical_ai_research_act.Executor.Support.{remaining_iteration_budget_after_current}
use vertical_ai_research_act.Executor.Collaborators.{Collaborators}
use vertical_ai_research_act.Executor.Outcome.{
  decided_by_rule, decided_by_model, evaluate_from, evaluate,
}
use vertical_ai_research_act.Executor.Outcome.Rules.{
  short_circuit_iteration_outcome, apply_iteration_outcome_guardrails,
}

abbrev pub same_outcome : ResearchIterationOutcome → ResearchIterationOutcome → Bool
same_outcome continue o = is_continue o
same_outcome stop o = is_stop o
same_outcome degrade o = is_degrade o

same_outcome_refl : (o : ResearchIterationOutcome) → same_outcome o o ≡ true
same_outcome_refl continue = refl
same_outcome_refl stop = refl
same_outcome_refl degrade = refl

-- An outcome that the guardrails leave, with its flag.
pub record IsGuarded (stage_input : ResearchStageInput) (iteration : ResearchExecutorIterationState)
    (payload : LlmIterationOutcomePayload) (outcome : ResearchIterationOutcome) (applied : Bool)
    : Type 0 where
  pub flagged : applied ≡ not (same_outcome outcome payload.proposed_iteration_outcome)
  pub affordable :
      is_continue outcome ≡ true
      → 0 < remaining_iteration_budget_after_current stage_input iteration
  -- What goes on was proposed to go on.
  pub proposed :
      (not (is_continue outcome) || is_continue payload.proposed_iteration_outcome) ≡ true

-- A decision of the rules ends the run.
pub record Ends (decision : Option (ResearchIterationOutcome × String)) : Type 0 where
  pub decided :
      (outcome : ResearchIterationOutcome) (reason : String)
      → decision ≡ some (outcome, reason)
      → is_continue outcome ≡ false

Ends-none : Ends none
Ends-none = record { decided = λ outcome reason h. cc }

Ends-some :
    (outcome : ResearchIterationOutcome) (reason : String)
    → is_continue outcome ≡ false
    → Ends (some (outcome, reason))
Ends-some outcome reason e = record { decided = λ o r h. ground arith }

Ends-if :
    (test : Bool) (x y : Option (ResearchIterationOutcome × String))
    → Ends x
    → Ends y
    → Ends (if test then x else y)
Ends-if true x y hx hy = hx
Ends-if false x y hx hy = hy

module _ (stage_input : ResearchStageInput) (iteration : ResearchExecutorIterationState) where
  pub apply_iteration_outcome_guardrails-IsGuarded :
      (payload : LlmIterationOutcomePayload)
      → let (outcome, rationale, applied) =
          apply_iteration_outcome_guardrails stage_input iteration payload in
        IsGuarded stage_input iteration payload outcome applied
  unfolding apply_iteration_outcome_guardrails
  apply_iteration_outcome_guardrails-IsGuarded payload = record {
    flagged = ground (arith, same_outcome_refl payload.proposed_iteration_outcome);
    affordable = ground arith;
    proposed = ground arith;
  }

  pub short_circuit-Ends :
      (state : ResearchExecutorRunState)
      → Ends (short_circuit_iteration_outcome stage_input state iteration)
  unfolding short_circuit_iteration_outcome
  short_circuit-Ends state = search (Ends-if, Ends-some, Ends-none) depth 14

-- Going on needs budget for another iteration.
abbrev pub IsAffordable :
    ResearchStageInput
    → ResearchExecutorIterationState
    → ResearchIterationOutcome × ResearchExecutorRunState
    → Type 0
IsAffordable stage_input iteration (outcome, after) =
    is_continue outcome ≡ true → 0 < remaining_iteration_budget_after_current stage_input iteration

module _ {W : Type 0} (collaborators : Collaborators W) (stage_input : ResearchStageInput)
    (state : ResearchExecutorRunState) (iteration : ResearchExecutorIterationState) where
  evaluate_from-IsAffordable :
      (decision : Option (ResearchIterationOutcome × String))
      → Ends decision
      → Ensures
          (IsAffordable stage_input iteration)
          (evaluate_from collaborators stage_input state iteration decision)
  unfolding evaluate_from decided_by_rule decided_by_model
  evaluate_from-IsAffordable (some (outcome, rationale)) ends =
      Ensures-pure (IsAffordable stage_input iteration) _
        (λ h. ground (arith, ends.decided outcome rationale refl))
  evaluate_from-IsAffordable none ends =
      Ensures-then (IsAffordable stage_input iteration) _ _ λ payload.
        Ensures-pure (IsAffordable stage_input iteration) _
          ((apply_iteration_outcome_guardrails-IsGuarded stage_input iteration payload).affordable)

  iteration-known :
      state.current_iteration ≡ some iteration → require_current_iteration state ≡ ok iteration
  unfolding require_current_iteration
  iteration-known h = rw h refl

  -- If an iteration is under way, then whatever the language model proposes, an evaluation that
  -- returns goes on only if there is budget for another iteration.
  pub evaluate-IsAffordable :
      state.current_iteration ≡ some iteration
      → Ensures (IsAffordable stage_input iteration) (evaluate collaborators stage_input state)
  unfolding evaluate
  evaluate-IsAffordable h =
      rw (iteration-known h)
        (evaluate_from-IsAffordable _ (short_circuit-Ends stage_input iteration state))
