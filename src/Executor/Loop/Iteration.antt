-- ===== src/Executor/Loop/Iteration.antt =====
-- An iteration keeps the invariant, however it ends.
use vertical_ai_research_act.Prelude.{
  ℕ, suc, ◌≡◌, ◌≤◌, ◌<◌, refl, String, true, some, List, length, contains, Distinct, string_eq, inl,
  inr, Bool-cases,
}
use vertical_ai_research_act.Prelude.Result.{Result, ok, raised}
use vertical_ai_research_act.Prelude.Act.{Returned}
use vertical_ai_research_act.Domain.ResearchStage.{ResearchStageInput}
use vertical_ai_research_act.Executor.Enums.{is_continue}
use vertical_ai_research_act.Executor.State.{target_keys, ResearchExecutorRunState}
use vertical_ai_research_act.Executor.Support.{max_iterations}
use vertical_ai_research_act.Executor.Collaborators.{Collaborators}
use vertical_ai_research_act.Executor.RetrievalHistory.{
  max_recent_attempts, record_completed_iteration, new_attempts,
}
use vertical_ai_research_act.Executor.RetrievalHistory.Window.{length-append_recent}
use vertical_ai_research_act.Executor.Coverage.{record_candidate_evidence}
use vertical_ai_research_act.Executor.Outcome.{evaluate}
use vertical_ai_research_act.Executor.Loop.Invariant.{
  IsRunning, iteration_known, assess_research_state-IsRunning, acquire_candidate_material-IsRunning,
  process-IsRunning, refine-IsRunning,
}
use vertical_ai_research_act.Executor.Findings.{refine}
use vertical_ai_research_act.Executor.Acquirer.{process}
use vertical_ai_research_act.Executor.Loop.Inputs.{new_iteration}
use vertical_ai_research_act.Executor.Loop.{
  IterationEnd, finished, interrupted, guarded, evaluate_iteration_outcome, conclude,
  acquire_and_conclude, acquire_candidate_material, assess_research_state, continue_assessed,
  run_iteration, skips_acquisition,
}
use vertical_ai_research_act.Executor.Loop.Recording.{
  IsRunning-suc, record_candidate_evidence-IsRunning, IsEvaluated, evaluate-IsEvaluated,
}

-- What holds of the state between two iterations, after `count` of them.
pub record IsBetween (keys : List String) (count : ℕ) (state : ResearchExecutorRunState)
    : Type 0 where
  pub once : Distinct (target_keys state.evidence_coverage_map)
  pub same_targets :
      (k : String) → contains (target_keys state.evidence_coverage_map) k ≡ contains keys k
  pub recent : length state.recent_retrieval_attempts ≤ max_recent_attempts
  pub called : length state.tool_execution_results ≤ count

-- Where an iteration may end, after `count` iterations.
abbrev pub EndHolds : ResearchStageInput → List String → ℕ → IterationEnd → Type 0
EndHolds stage_input keys count (finished outcome state) =
    IsRunning keys count (suc count) state
    × (is_continue outcome ≡ true → suc count < max_iterations stage_input)
EndHolds stage_input keys count (interrupted step e state) = IsRunning keys count (suc count) state

module _ {W : Type 0} (collaborators : Collaborators W) (stage_input : ResearchStageInput)
    (keys : List String) (count : ℕ) where
  abbrev Running : ResearchExecutorRunState → Type 0
  Running state = IsRunning keys count (suc count) state

  abbrev Ends : IterationEnd × W → Type 0
  Ends (end, w) = EndHolds stage_input keys count end

  -- A step that raises ends the iteration in the state before it; otherwise the next ones follow.
  guarded-Ends {ℓ κ} :
      {A : Type ℓ} (P : A → Type κ) (step : String) (state : ResearchExecutorRunState)
      (next : A → W → IterationEnd × W) (r : Result A) (w : W)
      → Running state
      → Returned P r
      → ((a : A) → P a → (w' : W) → Ends (next a w'))
      → Ends (guarded collaborators stage_input step state next (r, w))
  unfolding guarded
  guarded-Ends P step state next (ok a) w inv h k = k a h w
  guarded-Ends P step state next (raised e) w inv h k = inv

  record_completed-Running :
      (state : ResearchExecutorRunState)
      → Running state
      → Returned Running (record_completed_iteration collaborators.fingerprint state)
  unfolding record_completed_iteration
  record_completed-Running state inv =
      rw (iteration_known state inv.iteration inv.under_way) (record {
        once = inv.once;
        same_targets = inv.same_targets;
        recent =
            length-append_recent collaborators.fingerprint state.recent_retrieval_attempts
              (new_attempts collaborators.fingerprint inv.iteration state.next_evidence_need)
              inv.recent;
        iteration = inv.iteration;
        under_way = inv.under_way;
        index = inv.index;
        called = inv.called;
      })

  evaluate_iteration_outcome-Ends :
      (state : ResearchExecutorRunState)
      → Running state
      → (w : W) → Ends (evaluate_iteration_outcome collaborators stage_input state w)
  unfolding evaluate_iteration_outcome
  evaluate_iteration_outcome-Ends state inv w =
      let evaluated =
        evaluate-IsEvaluated collaborators stage_input keys count (suc count) state inv in
      guarded-Ends (IsEvaluated collaborators stage_input keys count (suc count) state inv)
        "iteration_outcome_evaluation" state _ (evaluate collaborators stage_input state w).0
        (evaluate collaborators stage_input state w).1 inv (evaluated.at w)
        λ (outcome, decided) (running, affordable) w'.
          guarded-Ends Running "iteration_outcome_evaluation" decided _
            (record_completed_iteration collaborators.fingerprint decided) w' running
            (record_completed-Running decided running) λ recorded kept w''. (kept, affordable)

  conclude-Ends :
      (state : ResearchExecutorRunState)
      → Running state
      → (w : W) → Ends (conclude collaborators stage_input state w)
  unfolding conclude
  conclude-Ends state inv w =
      guarded-Ends Running "coverage_update" state _ (record_candidate_evidence state) w inv
        (record_candidate_evidence-IsRunning keys count (suc count) state inv)
        λ updated running w'.
          guarded-Ends Running "findings_refinement" updated _
            (refine collaborators stage_input updated w').0
            (refine collaborators stage_input updated w').1 running
            ((refine-IsRunning collaborators stage_input keys count (suc count) updated running).at
              w')
            evaluate_iteration_outcome-Ends

  acquire_and_conclude-Ends :
      (state : ResearchExecutorRunState)
      → IsRunning keys count count state
      → (w : W) → Ends (acquire_and_conclude collaborators stage_input state w)
  unfolding acquire_and_conclude
  acquire_and_conclude-Ends state inv w =
      let acquired = acquire_candidate_material collaborators stage_input state w in
      guarded-Ends Running "material_acquisition" state _ acquired.0 acquired.1
        (IsRunning-suc keys count count state inv)
        ((acquire_candidate_material-IsRunning collaborators stage_input keys count count state
            inv).at
          w)
        λ after running w'.
          guarded-Ends Running "evidence_processing" after _ (process collaborators after w').0
            (process collaborators after w').1 running
            ((process-IsRunning collaborators stage_input keys count (suc count) after running).at
              w')
            conclude-Ends

  continue_assessed-Ends :
      (state : ResearchExecutorRunState)
      → IsRunning keys count count state
      → (w : W) → Ends (continue_assessed collaborators stage_input state w)
  unfolding continue_assessed
  continue_assessed-Ends state inv w =
      rw (iteration_known state inv.iteration inv.under_way)
        (elim (Bool-cases (skips_acquisition inv.iteration.action_mode)) [
          | inl refines ↦
              rw refines (conclude-Ends state (IsRunning-suc keys count count state inv) w)
          | inr acquires ↦ rw acquires (acquire_and_conclude-Ends state inv w)
        ])

  pub run_iteration-Ends :
      (state : ResearchExecutorRunState)
      → IsBetween keys count state
      → (w : W) → Ends (run_iteration collaborators stage_input count state w)
  unfolding run_iteration new_iteration
  run_iteration-Ends state between w =
      let begun = record state { current_iteration = some (new_iteration stage_input count) } in
      let inv : IsRunning keys count count begun = record {
        once = between.once;
        same_targets = between.same_targets;
        recent = between.recent;
        iteration = new_iteration stage_input count;
        under_way = refl;
        index = refl;
        called = between.called;
      } in
      let assessed = assess_research_state collaborators stage_input begun w in
      guarded-Ends (IsRunning keys count count) "assessment" begun _ assessed.0 assessed.1
        (IsRunning-suc keys count count begun inv)
        ((assess_research_state-IsRunning collaborators stage_input keys count count begun inv).at
          w)
        continue_assessed-Ends
