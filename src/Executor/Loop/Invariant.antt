-- ===== src/Executor/Loop/Invariant.antt =====
-- What every step of an iteration keeps: the targets of the coverage map, the bound on the retrieval
-- history, the iteration under way and the number of recorded results of the tool execution layer.
use vertical_ai_research_act.Prelude.{
  ℕ, suc, ◌≡◌, ◌≤◌, refl, ◌∙◌, String, Option, none, some, List, [], ◌∷◌, length, length-append,
  arith, contains, Distinct, string_eq,
}
use vertical_ai_research_act.Prelude.Result.{ok}
use vertical_ai_research_act.Prelude.Act.{
  lift, Returned-of, Ensures, Ensures-bind, Ensures-then, Ensures-pure, Ensures-lift,
}
use vertical_ai_research_act.Domain.Requests.{ToolExecutionLayerResult}
use vertical_ai_research_act.Domain.Evidence.{from_tool_execution_result}
use vertical_ai_research_act.Domain.ResearchStage.{ResearchStageInput}
use vertical_ai_research_act.Executor.State.{
  target_keys, ResearchExecutorIterationState, ResearchExecutorRunState, require_current_iteration,
}
use vertical_ai_research_act.Executor.Collaborators.{Collaborators, ResearchStateAssessorInput}
use vertical_ai_research_act.Executor.RetrievalHistory.{max_recent_attempts}
use vertical_ai_research_act.Executor.Assessor.{assess}
use vertical_ai_research_act.Executor.Assessor.Accepted.{IsAccepted, accept-IsAccepted}
use vertical_ai_research_act.Executor.Acquirer.{acquire, process, process_result, processed_state}
use vertical_ai_research_act.Executor.Findings.{refine, with_findings}
use vertical_ai_research_act.Executor.Loop.{
  assess_research_state, acquire_candidate_material, acquired_state,
}
use vertical_ai_research_act.Executor.Loop.Inputs.{assessor_input, assessed_state, acquire_input}

pub record IsRunning (keys : List String) (count calls : ℕ) (state : ResearchExecutorRunState)
    : Type 0 where
  pub once : Distinct (target_keys state.evidence_coverage_map)
  pub same_targets :
      (k : String) → contains (target_keys state.evidence_coverage_map) k ≡ contains keys k
  pub recent : length state.recent_retrieval_attempts ≤ max_recent_attempts
  pub iteration : ResearchExecutorIterationState
  pub under_way : state.current_iteration ≡ some iteration
  pub index : iteration.iteration_index ≡ suc count
  pub called : length state.tool_execution_results ≤ calls

pub iteration_known :
    (state : ResearchExecutorRunState) (iteration : ResearchExecutorIterationState)
    → state.current_iteration ≡ some iteration
    → require_current_iteration state ≡ ok iteration
unfolding require_current_iteration
iteration_known state iteration h = rw h refl

assess-IsAccepted :
    {W : Type 0} (collaborators : Collaborators W) (input : ResearchStateAssessorInput)
    → Ensures (IsAccepted input) (assess collaborators input)
unfolding assess
assess-IsAccepted collaborators input =
    Ensures-then (IsAccepted input) (collaborators.answer_assessment input) _ λ answer.
      Ensures-lift (IsAccepted input) _
        (Returned-of (IsAccepted input) _ (accept-IsAccepted input answer))

module _ {W : Type 0} (collaborators : Collaborators W) (stage_input : ResearchStageInput)
    (keys : List String) (count calls : ℕ) (state : ResearchExecutorRunState)
    (inv : IsRunning keys count calls state) where
  pub assess_research_state-IsRunning :
      Ensures (IsRunning keys count calls) (assess_research_state collaborators stage_input state)
  unfolding assess_research_state assessed_state assessor_input
  assess_research_state-IsRunning = rw (iteration_known state inv.iteration inv.under_way) (
      Ensures-bind (IsAccepted (assessor_input stage_input state inv.iteration))
        (IsRunning keys count calls)
        (assess collaborators (assessor_input stage_input state inv.iteration)) _
        (assess-IsAccepted collaborators _)
        λ output accepted. Ensures-pure (IsRunning keys count calls) _ (record {
          once = accepted.once;
          same_targets = λ k. accepted.same_targets k ∙ inv.same_targets k;
          recent = inv.recent;
          iteration = _;
          under_way = refl;
          index = inv.index;
          called = inv.called;
        }))

  pub acquire_candidate_material-IsRunning :
      Ensures
        (IsRunning keys count (suc calls))
        (acquire_candidate_material collaborators stage_input state)
  unfolding acquire_candidate_material acquired_state
  acquire_candidate_material-IsRunning = rw (iteration_known state inv.iteration inv.under_way) (
      Ensures-then (IsRunning keys count (suc calls))
        (lift (acquire_input stage_input state inv.iteration)) _
        λ input.
          Ensures-then (IsRunning keys count (suc calls)) (acquire collaborators input) _ λ output.
            Ensures-pure (IsRunning keys count (suc calls))
              (acquired_state state inv.iteration output)
              (record {
                once = inv.once;
                same_targets = inv.same_targets;
                recent = inv.recent;
                iteration = _;
                under_way = refl;
                index = inv.index;
                called = omega (
                  arith,
                  inv.called,
                  length-append state.tool_execution_results (output.tool_execution_result ∷ []),
                );
              }))

  process_result-IsRunning :
      (latest : Option ToolExecutionLayerResult)
      → Ensures
          (IsRunning keys count calls)
          (process_result collaborators state inv.iteration latest)
  unfolding process_result processed_state
  process_result-IsRunning none = Ensures-lift (IsRunning keys count calls) _ tt
  process_result-IsRunning (some tool_result) =
      Ensures-then (IsRunning keys count calls)
        (collaborators.process_evidence (from_tool_execution_result tool_result)) _
        λ result.
          Ensures-pure (IsRunning keys count calls)
            (processed_state state inv.iteration tool_result result)
            (record {
              once = inv.once;
              same_targets = inv.same_targets;
              recent = inv.recent;
              iteration = _;
              under_way = refl;
              index = inv.index;
              called = inv.called;
            })

  pub process-IsRunning : Ensures (IsRunning keys count calls) (process collaborators state)
  unfolding process
  process-IsRunning =
      rw (iteration_known state inv.iteration inv.under_way) (process_result-IsRunning _)

  pub refine-IsRunning :
      Ensures (IsRunning keys count calls) (refine collaborators stage_input state)
  unfolding refine with_findings
  refine-IsRunning = rw (iteration_known state inv.iteration inv.under_way) (
      Ensures-then (IsRunning keys count calls) _ _ λ payload.
        Ensures-pure (IsRunning keys count calls) _ (record {
          once = inv.once;
          same_targets = inv.same_targets;
          recent = inv.recent;
          iteration = inv.iteration;
          under_way = inv.under_way;
          index = inv.index;
          called = inv.called;
        }))
