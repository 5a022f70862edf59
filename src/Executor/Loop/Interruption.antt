-- ===== src/Executor/Loop/Interruption.antt =====
-- What the executor answers when a step of an iteration raises.
use vertical_ai_research_act.Prelude.{
  ℕ, ◌≡◌, ◌≢◌, ◌⊎◌, inl, inr, refl, String, true, false, not, ◌&&◌, Bool-cases, Option, some, List,
  [], ◌∷◌, is_empty, string_eq, arith,
}
use vertical_ai_research_act.Prelude.Result.{Exception, Result, ok, raised}
use vertical_ai_research_act.Text.{unique_non_empty_strings}
use vertical_ai_research_act.Domain.ResearchStage.{
  ResearchStageInput, ResearchStageResult, completed,
}
use vertical_ai_research_act.Executor.Enums.{ResearchIterationOutcome, degrade}
use vertical_ai_research_act.Executor.State.{
  ResearchExecutorIterationState, ResearchExecutorRunState, require_current_iteration,
}
use vertical_ai_research_act.Executor.Outcome.{
  degrade_after_runtime_failure, degraded_state, write_iteration_outcome,
}
use vertical_ai_research_act.Executor.Collaborators.{Collaborators}
use vertical_ai_research_act.Executor.StageResult.{is_failed_status}
use vertical_ai_research_act.Executor.StageResult.Evidence.{
  source_references_from_processed_evidence,
}
use vertical_ai_research_act.Executor.StageResult.Built.{build-IsSound}
use vertical_ai_research_act.Executor.Loop.{
  interrupted, LoopEnd, has_usable_research_output, handle_interruption, follow, build_from,
}

empty_list {ℓ} : {A : Type ℓ} (xs : List A) → is_empty xs ≡ true → xs ≡ []
empty_list [] h = refl
empty_list (x ∷ xs) h = cc

module _ {W : Type 0} (collaborators : Collaborators W) (stage_input : ResearchStageInput) where
  -- The run has nothing to show, and raises what the step raised.
  pub record IsLost (state : ResearchExecutorRunState) (e : Exception) (w : W)
      (answer : Option (Result ResearchStageResult × W)) : Type 0 where
    pub no_evidence : state.processed_evidence_units ≡ []
    pub no_findings : state.intermediate_findings ≡ []
    pub raises : answer ≡ some (raised e, w)

  -- The run has evidence or findings, and answers with them.
  pub record IsSalvaged (state : ResearchExecutorRunState) (count : ℕ) (w : W)
      (answer : Option (Result ResearchStageResult × W)) : Type 0 where
    pub something :
        (is_empty state.processed_evidence_units && is_empty state.intermediate_findings) ≡ false
    pub result : ResearchStageResult
    pub returns : answer ≡ some (ok result, w)
    pub counted : result.executed_iteration_count ≡ count
    pub findings_kept :
        result.intermediate_findings ≡ unique_non_empty_strings state.intermediate_findings
    pub references_kept :
        result.retrieved_evidence_refs
        ≡ source_references_from_processed_evidence collaborators.json_text
            state.processed_evidence_units
    pub not_completed : result.research_status ≢ completed
    pub not_failed_with_evidence :
        (is_failed_status result.research_status && not (is_empty state.processed_evidence_units))
        ≡ false

  module _
      (rest : ℕ
        → ResearchIterationOutcome
        → ResearchExecutorRunState
        → W
        → Option (Result LoopEnd × W))
      (step : String) (e : Exception) (count : ℕ) (w : W) where
    -- The answer of the executor when an iteration ends interrupted.
    abbrev pub answer_to : ResearchExecutorRunState → Option (Result ResearchStageResult × W)
    answer_to state =
        build_from collaborators stage_input
          (follow collaborators stage_input rest count (interrupted step e state, w))

    salvaged :
        (state : ResearchExecutorRunState) (iteration : ResearchExecutorIterationState)
        → state.current_iteration ≡ some iteration
        → (is_empty state.processed_evidence_units && is_empty state.intermediate_findings) ≡ false
        → has_usable_research_output state ≡ true
        → IsSalvaged state count w (answer_to state)
    unfolding build_from follow handle_interruption degrade_after_runtime_failure degraded_state
        write_iteration_outcome require_current_iteration
    salvaged state iteration known something usable =
        let (result, built, sound) =
          build-IsSound collaborators.json_text stage_input (degraded_state state iteration step) _
            count degrade refl in
        record {
          something = something;
          result = result;
          returns = rw usable (rw known (rw built refl));
          counted = sound.counted;
          findings_kept = sound.findings_kept;
          references_kept = sound.references_kept;
          not_completed = λ h. let (asked, degraded, usable) = sound.completed_answers h in cc;
          not_failed_with_evidence = elim (Bool-cases (is_empty state.processed_evidence_units)) [
            | inl nothing ↦ ground arith
            | inr evidence ↦
                let kept = sound.usable_kept (rw evidence refl) in rw evidence (rw kept refl)
          ];
        }

    -- If a step of an iteration raises in a state with an iteration under way, then the executor either
    -- raises the same exception, and the state has neither evidence nor findings; or it returns a
    -- result, and the state has some. That result has the number of iterations before, the normalised
    -- findings of the state and the references of its evidence, is not `completed`, and with evidence
    -- is not `failed`.
    pub interruption_answers :
        (state : ResearchExecutorRunState) (iteration : ResearchExecutorIterationState)
        → state.current_iteration ≡ some iteration
        → IsLost state e w (answer_to state) ⊎ IsSalvaged state count w (answer_to state)
    unfolding build_from follow handle_interruption has_usable_research_output
    interruption_answers state iteration known =
        elim (Bool-cases
          (is_empty state.processed_evidence_units && is_empty state.intermediate_findings)) [
            | inl nothing ↦
                let units : is_empty state.processed_evidence_units ≡ true = ground arith in
                let findings : is_empty state.intermediate_findings ≡ true = ground arith in
                inl (record {
                  no_evidence = empty_list state.processed_evidence_units units;
                  no_findings = empty_list state.intermediate_findings findings;
                  raises = rw units (rw findings refl);
                })
            | inr something ↦ inr (salvaged state iteration known something (ground arith))
          ]
