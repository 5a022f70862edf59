-- ===== src/Executor/Loop.antt =====
-- The executor (app/services/executor/research_executor_service.py): the bounded loop of iterations.
-- A step that raises leaves the state as the steps before it made it.
pub mod Inputs
pub mod Invariant
pub mod Recording
pub mod Iteration
pub mod Termination
pub mod Refinement
pub mod Interruption
pub mod Metered
pub mod Requests
use vertical_ai_research_act.Prelude.{
  ℕ, zero, suc, ◌-◌, String, Bool, true, false, not, ◌&&◌, ◌||◌, Option, none, some, List, [], ◌∷◌,
  ◌++◌, filter, is_empty, is_none, dedupe, ltb, if◌then◌else◌,
}
use vertical_ai_research_act.Prelude.Result.{Exception, Result, ok, raised, value_error, ◌>>=◌}
use vertical_ai_research_act.Prelude.Act
use vertical_ai_research_act.Prelude.Act.{Act}
use vertical_ai_research_act.Domain.Enums.{FamilyName, family_eq}
use vertical_ai_research_act.Domain.ResearchStage.{ResearchStageInput, ResearchStageResult}
use vertical_ai_research_act.Executor.Enums.{
  ResearchActionMode, is_refine, ResearchIterationOutcome, continue, is_continue,
}
use vertical_ai_research_act.Executor.Payloads.{
  LlmResearchGapPayload, LlmNextEvidenceNeedPayload, is_external_family,
}
use vertical_ai_research_act.Executor.State.{
  EvidenceCoverageMap, ResearchExecutorIterationState, ResearchExecutorRunState,
  require_current_iteration,
}
use vertical_ai_research_act.Executor.Support.{max_iterations}
use vertical_ai_research_act.Executor.Collaborators.{Collaborators, ResearchStateAssessorInput}
use vertical_ai_research_act.Executor.RetrievalHistory.{record_completed_iteration}
use vertical_ai_research_act.Executor.Coverage.{initial_map, record_candidate_evidence}
use vertical_ai_research_act.Executor.Assessor.{assess, ResearchStateAssessorOutput}
use vertical_ai_research_act.Executor.Acquirer.{
  ResearchMaterialAcquireInput, ResearchMaterialAcquireOutput, acquire, process,
}
use vertical_ai_research_act.Executor.Findings.{refine}
use vertical_ai_research_act.Executor.Outcome.{evaluate, degrade_after_runtime_failure}
use vertical_ai_research_act.Executor.StageResult.{build}
use vertical_ai_research_act.Executor.Loop.Inputs.{
  initial_run_state, new_iteration, assessor_input, assessed_state, acquire_input,
}

-- Where an iteration ended.
pub data IterationEnd : Type 0 where
  finished : ResearchIterationOutcome → ResearchExecutorRunState → IterationEnd
  interrupted : String → Exception → ResearchExecutorRunState → IterationEnd

-- `(state, executed_iteration_count, outcome)` behind the loop.
pub record LoopEnd : Type 0 where
  pub run_state : ResearchExecutorRunState
  pub executed_iteration_count : ℕ
  pub final_outcome : ResearchIterationOutcome

-- `_has_usable_research_output`
unfoldable pub has_usable_research_output : ResearchExecutorRunState → Bool
has_usable_research_output state =
    not (is_empty state.processed_evidence_units) || not (is_empty state.intermediate_findings)

abbrev skips_acquisition : Option ResearchActionMode → Bool
skips_acquisition none = false
skips_acquisition (some mode) = is_refine mode

-- What the acquisition writes.
unfoldable pub acquired_state :
    ResearchExecutorRunState
    → ResearchExecutorIterationState
    → ResearchMaterialAcquireOutput
    → ResearchExecutorRunState
acquired_state state iteration output = record state {
  tool_execution_results = state.tool_execution_results ++ output.tool_execution_result ∷ [];
  current_iteration = some (record iteration {
    tool_execution_request = some output.tool_execution_request;
    tool_execution_result = some output.tool_execution_result;
    candidate_materials = output.candidate_materials;
  });
}

module _ {W : Type 0} (collaborators : Collaborators W) (stage_input : ResearchStageInput) where
  -- `_assess_research_state_and_select_next_evidence_need`
  unfoldable pub assess_research_state : ResearchExecutorRunState → Act W ResearchExecutorRunState
  unfolding assess assessor_input assessed_state require_current_iteration
  assess_research_state state = Act.◌>>=◌ (Act.lift (require_current_iteration state)) λ iteration.
      Act.◌>>=◌ (assess collaborators (assessor_input stage_input state iteration))
        λ output. Act.pure (assessed_state state iteration output)

  -- `_acquire_candidate_material`
  unfoldable pub acquire_candidate_material :
      ResearchExecutorRunState → Act W ResearchExecutorRunState
  unfolding acquire acquire_input acquired_state require_current_iteration
  acquire_candidate_material state =
      Act.◌>>=◌ (Act.lift (require_current_iteration state)) λ iteration.
        Act.◌>>=◌ (Act.lift (acquire_input stage_input state iteration)) λ input.
          Act.◌>>=◌ (acquire collaborators input)
            λ output. Act.pure (acquired_state state iteration output)

  -- A step of an iteration: where it raises, the iteration is interrupted in the state before it.
  unfoldable pub guarded {ℓ} :
      {A : Type ℓ}
      → String
      → ResearchExecutorRunState
      → (A → W → IterationEnd × W)
      → Result A × W
      → IterationEnd × W
  guarded step state next (ok a, w) = next a w
  guarded step state next (raised e, w) = (interrupted step e state, w)

  -- `_evaluate_iteration_outcome`, the last step.
  unfoldable pub evaluate_iteration_outcome : ResearchExecutorRunState → W → IterationEnd × W
  unfolding guarded evaluate record_completed_iteration
  evaluate_iteration_outcome state w =
      guarded "iteration_outcome_evaluation" state
        (λ (outcome, decided) w'.
          guarded "iteration_outcome_evaluation" decided
            (λ recorded w''. (finished outcome recorded, w''))
            (record_completed_iteration collaborators.fingerprint decided, w'))
        (evaluate collaborators stage_input state w)

  -- The steps behind the acquisition.
  unfoldable pub conclude : ResearchExecutorRunState → W → IterationEnd × W
  unfolding guarded record_candidate_evidence refine evaluate_iteration_outcome
  conclude state w =
      guarded "coverage_update" state
        (λ updated w'.
          guarded "findings_refinement" updated evaluate_iteration_outcome
            (refine collaborators stage_input updated w'))
        (record_candidate_evidence state, w)

  unfoldable pub acquire_and_conclude : ResearchExecutorRunState → W → IterationEnd × W
  unfolding guarded acquire_candidate_material process conclude
  acquire_and_conclude state w =
      guarded "material_acquisition" state
        (λ acquired w'.
          guarded "evidence_processing" acquired conclude (process collaborators acquired w'))
        (acquire_candidate_material state w)

  -- The steps behind the assessment; `require_current_iteration` is within the guarded block.
  unfoldable pub continue_assessed : ResearchExecutorRunState → W → IterationEnd × W
  unfolding guarded require_current_iteration conclude acquire_and_conclude
  continue_assessed state w =
      guarded "assessment" state
        (λ (iteration : ResearchExecutorIterationState).
          if skips_acquisition iteration.action_mode
          then conclude state
          else acquire_and_conclude state)
        (require_current_iteration state, w)

  -- The body of the loop, up to the handling of an exception.
  unfoldable pub run_iteration : ℕ → ResearchExecutorRunState → W → IterationEnd × W
  unfolding guarded assess_research_state continue_assessed new_iteration
  run_iteration count state w =
      let begun = record state { current_iteration = some (new_iteration stage_input count) } in
      guarded "assessment" begun continue_assessed (assess_research_state begun w)

  -- The handling of an exception: with usable output the run degrades, otherwise it raises.
  unfoldable pub handle_interruption :
      String → Exception → ResearchExecutorRunState → ℕ → Result LoopEnd
  unfolding has_usable_research_output degrade_after_runtime_failure
  handle_interruption step e state count =
      if has_usable_research_output state
      then (do
        (outcome, degraded) ← degrade_after_runtime_failure state step
        ok (record {
          run_state = degraded;
          executed_iteration_count = count;
          final_outcome = outcome;
        }))
      else raised e

  -- What follows an iteration: the loop goes round, or ends.
  unfoldable pub follow :
      (ℕ → ResearchIterationOutcome → ResearchExecutorRunState → W → Option (Result LoopEnd × W))
      → ℕ
      → IterationEnd × W
      → Option (Result LoopEnd × W)
  unfolding handle_interruption
  follow rest count (finished outcome state, w) = rest (suc count) outcome state w
  follow rest count (interrupted step e state, w) = some (handle_interruption step e state count, w)

  -- The loop, on fuel; `none` means that the fuel ran out.
  unfoldable pub run_loop :
      ℕ → ℕ → ResearchIterationOutcome → ResearchExecutorRunState → W → Option (Result LoopEnd × W)
  unfolding run_iteration follow max_iterations
  run_loop zero count outcome state w = none
  run_loop (suc fuel) count outcome state w =
      if is_continue outcome && ltb count (max_iterations stage_input)
      then follow (run_loop fuel) count (run_iteration count state w)
      else some (
        ok (record {
          run_state = state;
          executed_iteration_count = count;
          final_outcome = outcome;
        }),
        w,
      )

  -- The result of the stage, from the end of the loop.
  unfoldable pub build_from : Option (Result LoopEnd × W) → Option (Result ResearchStageResult × W)
  unfolding build
  build_from none = none
  build_from (some (end, w)) = some (
    (do
      e ← end
      build collaborators.json_text stage_input e.run_state e.executed_iteration_count
          e.final_outcome),
    w,
  )

  -- The run from the initial map; fuel for one round more than there are iterations.
  unfoldable pub start : Result EvidenceCoverageMap → W → Option (Result ResearchStageResult × W)
  unfolding initial_run_state run_loop build_from
  start (raised e) w = some (raised e, w)
  start (ok coverage) w = build_from (
      run_loop (suc (max_iterations stage_input)) 0 continue
        (initial_run_state stage_input coverage) w)

  -- `execute`
  unfoldable pub execute : W → Option (Result ResearchStageResult × W)
  unfolding initial_map start
  execute w = start (initial_map stage_input) w
