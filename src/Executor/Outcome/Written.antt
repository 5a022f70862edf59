-- ===== src/Executor/Outcome/Written.antt =====
-- What an evaluation leaves in the state.
use vertical_ai_research_act.Prelude.{
  ◌≡◌, refl, String, Bool, true, false, not, ◌||◌, Option, none, some, is_some, is_none,
  if◌then◌else◌,
}
use vertical_ai_research_act.Prelude.Result.{ok}
use vertical_ai_research_act.Prelude.Act.{Ensures, Ensures-then, Ensures-pure}
use vertical_ai_research_act.Domain.ResearchStage.{ResearchStageInput}
use vertical_ai_research_act.Executor.Enums.{ResearchIterationOutcome, is_continue}
use vertical_ai_research_act.Executor.State.{
  ResearchExecutorIterationState, ResearchExecutorRunState, require_current_iteration,
}
use vertical_ai_research_act.Executor.Collaborators.{Collaborators}
use vertical_ai_research_act.Executor.Outcome.{
  decided_by_rule, decided_by_model, evaluate_from, evaluate, write_iteration_outcome,
}
use vertical_ai_research_act.Executor.Outcome.Guardrails.{
  same_outcome, Ends, short_circuit-Ends, apply_iteration_outcome_guardrails-IsGuarded,
}

-- The outcome differs from what the language model proposed, if it was asked.
abbrev overrides : ResearchIterationOutcome → Option ResearchIterationOutcome → Bool
overrides outcome none = false
overrides outcome (some proposed) = not (same_outcome outcome proposed)

abbrev goes_on : Option ResearchIterationOutcome → Bool
goes_on none = false
goes_on (some proposed) = is_continue proposed

-- Only the iteration under way is changed, and there only what was decided is written: the outcome
-- that is returned, who decided, and whether that overrides a proposal.
pub record IsWritten (state : ResearchExecutorRunState) (iteration : ResearchExecutorIterationState)
    (result : ResearchIterationOutcome × ResearchExecutorRunState) : Type 0 where
  pub written : ResearchExecutorIterationState
  pub state_kept : result.1 ≡ record state { current_iteration = some written }
  pub iteration_kept : written ≡ record iteration {
    evaluation_state = written.evaluation_state;
    iteration_outcome = written.iteration_outcome;
    outcome_rationale = written.outcome_rationale;
    outcome_decision_source = written.outcome_decision_source;
    proposed_iteration_outcome = written.proposed_iteration_outcome;
    outcome_guardrail_applied = written.outcome_guardrail_applied;
  }
  pub outcome_written : written.iteration_outcome ≡ some result.0
  pub evaluated : is_some written.evaluation_state ≡ true
  pub explained : is_some written.outcome_rationale ≡ true
  pub source :
      written.outcome_decision_source
      ≡ some (
          if is_none written.proposed_iteration_outcome
          then "rule_short_circuit"
          else "llm_with_guardrails")
  pub flagged :
      written.outcome_guardrail_applied ≡ overrides result.0 written.proposed_iteration_outcome
  pub proposed : (not (is_continue result.0) || goes_on written.proposed_iteration_outcome) ≡ true

module _ {W : Type 0} (collaborators : Collaborators W) (stage_input : ResearchStageInput)
    (state : ResearchExecutorRunState) (iteration : ResearchExecutorIterationState) where
  evaluate_from-IsWritten :
      (decision : Option (ResearchIterationOutcome × String))
      → Ends decision
      → Ensures
          (IsWritten state iteration)
          (evaluate_from collaborators stage_input state iteration decision)
  unfolding evaluate_from decided_by_rule decided_by_model write_iteration_outcome
  evaluate_from-IsWritten (some (outcome, rationale)) ends =
      Ensures-pure (IsWritten state iteration) _ (record {
        written = _;
        state_kept = refl;
        iteration_kept = refl;
        outcome_written = refl;
        evaluated = refl;
        explained = refl;
        source = refl;
        flagged = refl;
        proposed = rw (ends.decided outcome rationale refl) refl;
      })
  evaluate_from-IsWritten none ends =
      Ensures-then (IsWritten state iteration) (collaborators.answer_outcome stage_input state) _
        λ payload.
          let guarded =
            apply_iteration_outcome_guardrails-IsGuarded stage_input iteration payload in
          Ensures-pure (IsWritten state iteration)
            (decided_by_model stage_input state iteration payload)
            (record {
              written = _;
              state_kept = refl;
              iteration_kept = refl;
              outcome_written = refl;
              evaluated = refl;
              explained = refl;
              source = refl;
              flagged = guarded.flagged;
              proposed = guarded.proposed;
            })

  under_way :
      state.current_iteration ≡ some iteration → require_current_iteration state ≡ ok iteration
  unfolding require_current_iteration
  under_way known = rw known refl

  -- If an iteration is under way, then an evaluation that returns changes nothing of the state but
  -- what is decided about that iteration: the outcome written there is the one returned, with an
  -- evaluation and a rationale; the source is the rules if the language model proposed nothing, and
  -- the model otherwise; the guardrail flag is set exactly if a proposal was overridden; and the
  -- outcome is to continue only if the model proposed that.
  pub evaluate-IsWritten :
      state.current_iteration ≡ some iteration
      → Ensures (IsWritten state iteration) (evaluate collaborators stage_input state)
  unfolding evaluate
  evaluate-IsWritten known =
      rw (under_way known)
        (evaluate_from-IsWritten _ (short_circuit-Ends stage_input iteration state))
