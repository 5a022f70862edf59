-- ===== src/Executor/Loop/Metered.antt =====
-- Which steps of an iteration make requests to the tool execution layer. The requests are counted
-- outside the executor: a meter reads their number from the world.
use vertical_ai_research_act.Prelude.{ℕ, suc, ◌+◌, ◌≤◌, ◌≡◌, String, Option, none, some, arith}
use vertical_ai_research_act.Prelude.Result.{Result, ok, raised}
use vertical_ai_research_act.Prelude.Act
use vertical_ai_research_act.Prelude.Act.{Act, proceed, lift, pure}
use vertical_ai_research_act.Domain.Requests.{ToolExecutionLayerRequest, ToolExecutionLayerResult}
use vertical_ai_research_act.Domain.Evidence.{EvidenceProcessingRequest, from_tool_execution_result}
use vertical_ai_research_act.Domain.ResearchStage.{ResearchStageInput}
use vertical_ai_research_act.Executor.Enums.{ResearchIterationOutcome}
use vertical_ai_research_act.Executor.State.{
  ResearchExecutorIterationState, ResearchExecutorRunState, require_current_iteration,
}
use vertical_ai_research_act.Executor.Collaborators.{Collaborators, ResearchStateAssessorInput}
use vertical_ai_research_act.Executor.Assessor.{assess}
use vertical_ai_research_act.Executor.Acquirer.{
  acquire, process, process_result, tool_execution_layer_request, ResearchMaterialAcquireInput,
}
use vertical_ai_research_act.Executor.Findings.{refine}
use vertical_ai_research_act.Executor.Outcome.{evaluate, evaluate_from}
use vertical_ai_research_act.Executor.Loop.{
  assess_research_state, acquire_candidate_material, acquired_state,
}
use vertical_ai_research_act.Executor.Loop.Inputs.{acquire_input}

-- A number that counts the calls of `execute_tools`: they raise it by one, and no other collaborator
-- changes it.
pub record IsMeter {W : Type 0} (collaborators : Collaborators W) (meter : W → ℕ) : Type 0 where
  pub assessing :
      (input : ResearchStateAssessorInput) (w : W)
      → meter (collaborators.answer_assessment input w).1 ≡ meter w
  pub requesting :
      (request : ToolExecutionLayerRequest) (w : W)
      → meter (collaborators.execute_tools request w).1 ≡ suc (meter w)
  pub processing :
      (request : EvidenceProcessingRequest) (w : W)
      → meter (collaborators.process_evidence request w).1 ≡ meter w
  pub refining :
      (input : ResearchStageInput) (state : ResearchExecutorRunState) (w : W)
      → meter (collaborators.answer_findings input state w).1 ≡ meter w
  pub evaluating :
      (input : ResearchStageInput) (state : ResearchExecutorRunState) (w : W)
      → meter (collaborators.answer_outcome input state w).1 ≡ meter w

-- A step that makes at most `n` requests, from every world.
pub record Spends {W X : Type 0} (meter : W → ℕ) (n : ℕ) (f : W → X × W) : Type 0 where
  pub at_most : (w : W) → meter (f w).1 ≤ meter w + n

module _ {W : Type 0} (meter : W → ℕ) where
  proceed-Spends :
      {A B : Type 0} (k : ℕ) (r : Result A) (f : A → Act W B) (w : W)
      → ((a : A) → Spends meter k (f a))
      → meter (proceed r f w).1 ≤ meter w + k
  proceed-Spends k (ok a) f w h = (h a).at_most w
  proceed-Spends k (raised e) f w h = omega arith

  Spends-bind :
      {A B : Type 0} (n k : ℕ) (m : Act W A) (f : A → Act W B)
      → Spends meter n m
      → ((a : A) → Spends meter k (f a))
      → Spends meter (n + k) (Act.◌>>=◌ m f)
  Spends-bind n k m f h g = record {
    at_most = λ w. omega (arith, h.at_most w, proceed-Spends k (m w).0 f (m w).1 g);
  }

  Spends-pure : {A : Type 0} (a : A) → Spends meter 0 (pure {W = W} a)
  Spends-pure a = record { at_most = λ w. omega arith }

  pub Spends-lift : {A : Type 0} (r : Result A) → Spends meter 0 (lift {W = W} r)
  Spends-lift r = record { at_most = λ w. omega arith }

  Spends-same :
      {X : Type 0} (f : W → X × W) → ((w : W) → meter (f w).1 ≡ meter w) → Spends meter 0 f
  Spends-same f h = record { at_most = λ w. omega (arith, h w) }

module _ {W : Type 0} (collaborators : Collaborators W) (stage_input : ResearchStageInput)
    (meter : W → ℕ) (counts : IsMeter collaborators meter) where
  assess-Spends : (input : ResearchStateAssessorInput) → Spends meter 0 (assess collaborators input)
  unfolding assess
  assess-Spends input =
      Spends-bind meter 0 0 (collaborators.answer_assessment input) _
        (Spends-same meter _ (counts.assessing input)) λ answer. Spends-lift meter _

  pub assess_research_state-Spends :
      (state : ResearchExecutorRunState)
      → Spends meter 0 (assess_research_state collaborators stage_input state)
  unfolding assess_research_state
  assess_research_state-Spends state =
      Spends-bind meter 0 0 (lift (require_current_iteration state)) _ (Spends-lift meter _)
        λ iteration.
          Spends-bind meter 0 0 (assess collaborators _) _ (assess-Spends _)
            λ output. Spends-pure meter _

  acquire-Spends :
      (input : ResearchMaterialAcquireInput) → Spends meter 1 (acquire collaborators input)
  unfolding acquire
  acquire-Spends input =
      Spends-bind meter 0 1 (lift (tool_execution_layer_request input)) _ (Spends-lift meter _)
        λ request.
          Spends-bind meter 1 0 (collaborators.execute_tools request) _
            (record { at_most = λ w. omega (arith, counts.requesting request w) })
            λ result. Spends-pure meter _

  pub acquire_candidate_material-Spends :
      (state : ResearchExecutorRunState)
      → Spends meter 1 (acquire_candidate_material collaborators stage_input state)
  unfolding acquire_candidate_material
  acquire_candidate_material-Spends state =
      Spends-bind meter 0 1 (lift (require_current_iteration state)) _ (Spends-lift meter _)
        λ iteration.
          Spends-bind meter 0 1 (lift (acquire_input stage_input state iteration)) _
            (Spends-lift meter _)
            λ input.
              Spends-bind meter 1 0 (acquire collaborators input) _ (acquire-Spends input)
                λ output. Spends-pure meter (acquired_state state iteration output)

  process_result-Spends :
      (state : ResearchExecutorRunState) (iteration : ResearchExecutorIterationState)
      (latest : Option ToolExecutionLayerResult)
      → Spends meter 0 (process_result collaborators state iteration latest)
  unfolding process_result
  process_result-Spends state iteration none = Spends-lift meter _
  process_result-Spends state iteration (some tool_result) =
      Spends-bind meter 0 0
        (collaborators.process_evidence (from_tool_execution_result tool_result)) _
        (Spends-same meter _ (counts.processing (from_tool_execution_result tool_result)))
        λ result. Spends-pure meter _

  pub process-Spends :
      (state : ResearchExecutorRunState) → Spends meter 0 (process collaborators state)
  unfolding process
  process-Spends state =
      Spends-bind meter 0 0 (lift (require_current_iteration state)) _ (Spends-lift meter _)
        λ iteration. process_result-Spends state iteration _

  evaluate_from-Spends :
      (state : ResearchExecutorRunState) (iteration : ResearchExecutorIterationState)
      (decision : Option (ResearchIterationOutcome × String))
      → Spends meter 0 (evaluate_from collaborators stage_input state iteration decision)
  unfolding evaluate_from
  evaluate_from-Spends state iteration (some (outcome, rationale)) = Spends-pure meter _
  evaluate_from-Spends state iteration none =
      Spends-bind meter 0 0 (collaborators.answer_outcome stage_input state) _
        (Spends-same meter _ (counts.evaluating stage_input state)) λ payload. Spends-pure meter _

  pub evaluate-Spends :
      (state : ResearchExecutorRunState) → Spends meter 0 (evaluate collaborators stage_input state)
  unfolding evaluate
  evaluate-Spends state =
      Spends-bind meter 0 0 (lift (require_current_iteration state)) _ (Spends-lift meter _)
        λ iteration. evaluate_from-Spends state iteration _

  pub refine-Spends :
      (state : ResearchExecutorRunState) → Spends meter 0 (refine collaborators stage_input state)
  unfolding refine
  refine-Spends state =
      Spends-bind meter 0 0 (lift (require_current_iteration state)) _ (Spends-lift meter _)
        λ iteration.
          Spends-bind meter 0 0 (collaborators.answer_findings stage_input state) _
            (Spends-same meter _ (counts.refining stage_input state)) λ payload. Spends-pure meter _
