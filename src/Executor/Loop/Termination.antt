-- ===== src/Executor/Loop/Termination.antt =====
-- The loop of the executor ends within its budget, and decided.
use vertical_ai_research_act.Prelude.{
  ℕ, zero, suc, ◌+◌, ◌≡◌, ◌≤◌, ◌<◌, refl, String, true, false, Option, none, some, List, length,
  arith, contains, Distinct, string_eq, ltb, inl, inr, Bool-cases,
}
use vertical_ai_research_act.Prelude.Int.{ℤ, pos, negsuc}
use vertical_ai_research_act.Prelude.Result.{Exception, Result}
use vertical_ai_research_act.Prelude.Act.{Returned}
use vertical_ai_research_act.Domain.ResearchStage.{ResearchStageInput}
use vertical_ai_research_act.Executor.Enums.{ResearchIterationOutcome, continue, is_continue}
use vertical_ai_research_act.Executor.State.{
  EvidenceCoverageMap, target_keys, ResearchExecutorIterationState, ResearchExecutorRunState,
}
use vertical_ai_research_act.Executor.Support.{max_iterations, positive_or_one}
use vertical_ai_research_act.Executor.Collaborators.{Collaborators}
use vertical_ai_research_act.Executor.RetrievalHistory.{max_recent_attempts}
use vertical_ai_research_act.Executor.Outcome.{
  degrade_after_runtime_failure, write_iteration_outcome,
}
use vertical_ai_research_act.Executor.Loop.{
  IterationEnd, finished, interrupted, LoopEnd, run_iteration, has_usable_research_output,
  handle_interruption, follow, run_loop,
}
use vertical_ai_research_act.Executor.Loop.Inputs.{initial_run_state}
use vertical_ai_research_act.Executor.Loop.Invariant.{IsRunning, iteration_known}
use vertical_ai_research_act.Executor.Loop.Iteration.{IsBetween, EndHolds, run_iteration-Ends}

-- What holds behind the loop, with the targets that it began with.
pub record IsFinal (stage_input : ResearchStageInput) (keys : List String) (end : LoopEnd)
    : Type 0 where
  pub bounded : end.executed_iteration_count ≤ max_iterations stage_input
  pub decided : is_continue end.final_outcome ≡ false
  pub once : Distinct (target_keys end.run_state.evidence_coverage_map)
  pub same_targets :
      (k : String) → contains (target_keys end.run_state.evidence_coverage_map) k ≡ contains keys k
  pub recent : length end.run_state.recent_retrieval_attempts ≤ max_recent_attempts
  pub called : length end.run_state.tool_execution_results ≤ max_iterations stage_input
  pub iteration : ResearchExecutorIterationState
  pub known : end.run_state.current_iteration ≡ some iteration

-- The loop has ended, and a state that it returns is final.
abbrev pub HasEnded :
    {W : Type 0} → ResearchStageInput → List String → Option (Result LoopEnd × W) → Type 0
HasEnded stage_input keys none = ⊥
HasEnded stage_input keys (some (r, w)) = Returned (IsFinal stage_input keys) r

-- What holds where the loop goes round.
record IsHead (stage_input : ResearchStageInput) (keys : List String) (count : ℕ)
    (outcome : ResearchIterationOutcome) (state : ResearchExecutorRunState) : Type 0 where
  within : count ≤ max_iterations stage_input
  between : IsBetween keys count state
  goes_on : is_continue outcome ≡ true → count < max_iterations stage_input
  known :
      is_continue outcome ≡ false
      → (iteration : ResearchExecutorIterationState) × (state.current_iteration ≡ some iteration)

module _ {W : Type 0} (collaborators : Collaborators W) (stage_input : ResearchStageInput)
    (keys : List String) where
  handle_interruption-IsFinal :
      (step : String) (e : Exception) (state : ResearchExecutorRunState) (count : ℕ)
      → count < max_iterations stage_input
      → IsRunning keys count (suc count) state
      → Returned
          (IsFinal stage_input keys)
          (handle_interruption collaborators stage_input step e state count)
  unfolding handle_interruption degrade_after_runtime_failure write_iteration_outcome
  handle_interruption-IsFinal step e state count le inv =
      elim (Bool-cases (has_usable_research_output state)) [
        | inr nothing ↦ rw nothing tt
        | inl usable ↦ rw usable (
            rw (iteration_known state inv.iteration inv.under_way) (record {
              bounded = omega arith;
              decided = refl;
              once = inv.once;
              same_targets = inv.same_targets;
              recent = inv.recent;
              called = omega (arith, inv.called);
              iteration = _;
              known = refl;
            }))
      ]

  next-IsHead :
      (count : ℕ) (outcome : ResearchIterationOutcome) (state : ResearchExecutorRunState)
      → count < max_iterations stage_input
      → EndHolds stage_input keys count (finished outcome state)
      → IsHead stage_input keys (suc count) outcome state
  next-IsHead count outcome state le (inv, affordable) = record {
    within = le;
    between = record {
      once = inv.once;
      same_targets = inv.same_targets;
      recent = inv.recent;
      called = inv.called;
    };
    goes_on = affordable;
    known = λ h. (inv.iteration, inv.under_way);
  }

  follow-HasEnded :
      (rest : ℕ
        → ResearchIterationOutcome
        → ResearchExecutorRunState
        → W
        → Option (Result LoopEnd × W))
      (count : ℕ) (end : IterationEnd) (w : W)
      → count < max_iterations stage_input
      → EndHolds stage_input keys count end
      → ((outcome : ResearchIterationOutcome) (state : ResearchExecutorRunState) (w' : W)
          → IsHead stage_input keys (suc count) outcome state
          → HasEnded stage_input keys (rest (suc count) outcome state w'))
      → HasEnded stage_input keys (follow collaborators stage_input rest count (end, w))
  unfolding follow
  follow-HasEnded rest count (finished outcome state) w le h k =
      k outcome state w (next-IsHead count outcome state le h)
  follow-HasEnded rest count (interrupted step e state) w le h k =
      handle_interruption-IsFinal step e state count le h

  run_loop-HasEnded :
      (fuel count : ℕ) (outcome : ResearchIterationOutcome) (state : ResearchExecutorRunState)
      (w : W)
      → max_iterations stage_input < fuel + count
      → IsHead stage_input keys count outcome state
      → HasEnded stage_input keys (run_loop collaborators stage_input fuel count outcome state w)
  unfolding run_loop
  run_loop-HasEnded zero count outcome state w le head = absurd (omega (arith, head.within))
  run_loop-HasEnded (suc fuel) count outcome state w le head =
      elim (Bool-cases (is_continue outcome)) [
        | inl continues ↦
            let below : ltb count (max_iterations stage_input) ≡ true =
              ground (arith, head.goes_on continues) in
            rw continues (
              rw below (
                follow-HasEnded (run_loop collaborators stage_input fuel) count
                  (run_iteration collaborators stage_input count state w).0
                  (run_iteration collaborators stage_input count state w).1 (head.goes_on continues)
                  (run_iteration-Ends collaborators stage_input keys count state head.between w)
                  λ outcome' state' w' head'.
                    run_loop-HasEnded fuel (suc count) outcome' state' w' (omega arith) head'))
        | inr ends ↦
            let (iteration, known) = head.known ends in
            rw ends (record {
              bounded = head.within;
              decided = ends;
              once = head.between.once;
              same_targets = head.between.same_targets;
              recent = head.between.recent;
              called = omega (arith, head.between.called, head.within);
              iteration = iteration;
              known = known;
            })
      ]

max_iterations-positive : (stage_input : ResearchStageInput) → 1 ≤ max_iterations stage_input
unfolding max_iterations
max_iterations-positive stage_input = positive_lem stage_input.iteration_budget
  where
    positive_lem : (budget : Option ℤ) → 1 ≤ positive_or_one budget
    positive_lem none = omega arith
    positive_lem (some (negsuc n)) = omega arith
    positive_lem (some (pos zero)) = omega arith
    positive_lem (some (pos (suc n))) = omega arith

-- If the targets of the coverage map are distinct, then the loop ends within its fuel, whatever the
-- collaborators do; unless it raises, it has run at most the budgeted iterations, its outcome is not
-- to continue, the map has the same targets, the history at most 30 attempts, and the state records at
-- most as many results of the tool execution layer as there are budgeted iterations.
pub run_loop-returns :
    {W : Type 0} (collaborators : Collaborators W) (stage_input : ResearchStageInput)
    (coverage : EvidenceCoverageMap) (w : W)
    → Distinct (target_keys coverage)
    → HasEnded stage_input (target_keys coverage) (
        run_loop collaborators stage_input
          (suc (max_iterations stage_input))
          0
          continue
          (initial_run_state stage_input coverage)
          w)
unfolding initial_run_state
run_loop-returns collaborators stage_input coverage w distinct =
    let positive = max_iterations-positive stage_input in
    run_loop-HasEnded collaborators stage_input (target_keys coverage)
      (suc (max_iterations stage_input)) 0 continue (initial_run_state stage_input coverage) w
      (omega arith)
      (record {
        within = omega arith;
        between = record {
          once = distinct;
          same_targets = λ k. refl;
          recent = omega arith;
          called = omega arith;
        };
        goes_on = λ h. positive;
        known = λ h. cc;
      })
