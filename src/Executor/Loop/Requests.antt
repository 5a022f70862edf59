-- ===== src/Executor/Loop/Requests.antt =====
-- How many requests the executor makes to the tool execution layer.
use vertical_ai_research_act.Prelude.{
  ℕ, zero, suc, ◌+◌, ◌-◌, ◌≤◌, ◌<◌, ◌≡◌, refl, String, Bool, true, false, ◌&&◌, Option, none, some,
  arith, ltb, Bool-cases, inl, inr, if◌then◌else◌,
}
use vertical_ai_research_act.Prelude.Result.{Result, ok, raised}
use vertical_ai_research_act.Prelude.Act.{Act, lift}
use vertical_ai_research_act.Domain.ResearchStage.{ResearchStageInput, ResearchStageResult}
use vertical_ai_research_act.Executor.Enums.{ResearchIterationOutcome, continue, is_continue}
use vertical_ai_research_act.Executor.State.{
  EvidenceCoverageMap, ResearchExecutorIterationState, ResearchExecutorRunState,
  require_current_iteration,
}
use vertical_ai_research_act.Executor.Support.{max_iterations}
use vertical_ai_research_act.Executor.Collaborators.{Collaborators}
use vertical_ai_research_act.Executor.RetrievalHistory.{record_completed_iteration}
use vertical_ai_research_act.Executor.Coverage.{initial_map, record_candidate_evidence}
use vertical_ai_research_act.Executor.Acquirer.{process}
use vertical_ai_research_act.Executor.Findings.{refine}
use vertical_ai_research_act.Executor.Outcome.{evaluate}
use vertical_ai_research_act.Executor.Loop.{
  IterationEnd, finished, interrupted, LoopEnd, assess_research_state, acquire_candidate_material,
  guarded, evaluate_iteration_outcome, conclude, acquire_and_conclude, continue_assessed,
  run_iteration, follow, run_loop, build_from, start, execute, skips_acquisition,
}
use vertical_ai_research_act.Executor.Loop.Inputs.{initial_run_state, new_iteration}
use vertical_ai_research_act.Executor.Loop.Refinement.{Answers, execute-Answers}
use vertical_ai_research_act.Executor.Loop.Metered.{
  IsMeter, Spends, Spends-lift, assess_research_state-Spends, acquire_candidate_material-Spends,
  process-Spends, refine-Spends, evaluate-Spends,
}

module _ {W : Type 0} (collaborators : Collaborators W) (stage_input : ResearchStageInput)
    (meter : W → ℕ) (counts : IsMeter collaborators meter) where
  guarded-Spends :
      {A : Type 0} (n k : ℕ) (step : String) (state : ResearchExecutorRunState)
      (next : A → W → IterationEnd × W) (f : Act W A)
      → Spends meter n f
      → ((a : A) → Spends meter k (next a))
      → Spends meter (n + k) (λ w. guarded collaborators stage_input step state next (f w))
  unfolding guarded
  guarded-Spends n k step state next f h g = record {
    at_most = λ w. omega (arith, h.at_most w, after (f w).0 (f w).1);
  }
    where
      after :
          (r : Result _) (w : W)
          → meter (guarded collaborators stage_input step state next (r, w)).1 ≤ meter w + k
      after (ok a) w = (g a).at_most w
      after (raised e) w = omega arith

  evaluate_iteration_outcome-Spends :
      (state : ResearchExecutorRunState)
      → Spends meter 0 (evaluate_iteration_outcome collaborators stage_input state)
  unfolding evaluate_iteration_outcome
  evaluate_iteration_outcome-Spends state =
      guarded-Spends 0 0 "iteration_outcome_evaluation" state _
        (evaluate collaborators stage_input state)
        (evaluate-Spends collaborators stage_input meter counts state)
        λ (outcome, decided).
          guarded-Spends 0 0 "iteration_outcome_evaluation" decided _
            (lift (record_completed_iteration collaborators.fingerprint decided))
            (Spends-lift meter _) λ recorded. record { at_most = λ w. omega arith }

  conclude-Spends :
      (state : ResearchExecutorRunState) → Spends meter 0 (conclude collaborators stage_input state)
  unfolding conclude
  conclude-Spends state =
      guarded-Spends 0 0 "coverage_update" state _ (lift (record_candidate_evidence state))
        (Spends-lift meter _)
        λ updated.
          guarded-Spends 0 0 "findings_refinement" updated _
            (refine collaborators stage_input updated)
            (refine-Spends collaborators stage_input meter counts updated)
            evaluate_iteration_outcome-Spends

  acquire_and_conclude-Spends :
      (state : ResearchExecutorRunState)
      → Spends meter 1 (acquire_and_conclude collaborators stage_input state)
  unfolding acquire_and_conclude
  acquire_and_conclude-Spends state =
      guarded-Spends 1 0 "material_acquisition" state _
        (acquire_candidate_material collaborators stage_input state)
        (acquire_candidate_material-Spends collaborators stage_input meter counts state)
        λ acquired.
          guarded-Spends 0 0 "evidence_processing" acquired _ (process collaborators acquired)
            (process-Spends collaborators stage_input meter counts acquired) conclude-Spends

  assessed-Spends :
      (skips : Bool) (state : ResearchExecutorRunState)
      → Spends meter 1 (
          if skips
          then conclude collaborators stage_input state
          else acquire_and_conclude collaborators stage_input state)
  assessed-Spends true state = record {
    at_most = λ w. omega (arith, (conclude-Spends state).at_most w);
  }
  assessed-Spends false state = acquire_and_conclude-Spends state

  continue_assessed-Spends :
      (state : ResearchExecutorRunState)
      → Spends meter 1 (continue_assessed collaborators stage_input state)
  unfolding continue_assessed
  continue_assessed-Spends state =
      guarded-Spends 0 1 "assessment" state _ (lift (require_current_iteration state))
        (Spends-lift meter _)
        λ (iteration : ResearchExecutorIterationState).
          assessed-Spends (skips_acquisition iteration.action_mode) state

  -- An iteration makes at most one request.
  run_iteration-Spends :
      (count : ℕ) (state : ResearchExecutorRunState)
      → Spends meter 1 (run_iteration collaborators stage_input count state)
  unfolding run_iteration
  run_iteration-Spends count state =
      let begun = record state { current_iteration = some (new_iteration stage_input count) } in
      guarded-Spends 0 1 "assessment" begun _
        (assess_research_state collaborators stage_input begun)
        (assess_research_state-Spends collaborators stage_input meter counts begun)
        continue_assessed-Spends

  -- Where there is an end, the meter is within a bound.
  abbrev Within : {X : Type 0} → ℕ → Option (X × W) → Type 0
  Within bound none = Unit
  Within bound (some (x, w)) = meter w ≤ bound

  follow-Within :
      (rest : ℕ
        → ResearchIterationOutcome
        → ResearchExecutorRunState
        → W
        → Option (Result LoopEnd × W))
      (count bound : ℕ) (end : IterationEnd) (w : W)
      → meter w ≤ bound
      → ((outcome : ResearchIterationOutcome) (state : ResearchExecutorRunState)
          → Within bound (rest (suc count) outcome state w))
      → Within bound (follow collaborators stage_input rest count (end, w))
  unfolding follow
  follow-Within rest count bound (finished outcome state) w h k = k outcome state
  follow-Within rest count bound (interrupted step e state) w h k = h

  run_loop-Within :
      (fuel count bound : ℕ) (outcome : ResearchIterationOutcome) (state : ResearchExecutorRunState)
      (w : W)
      → meter w + (max_iterations stage_input - count) ≤ bound
      → Within bound (run_loop collaborators stage_input fuel count outcome state w)
  unfolding run_loop
  run_loop-Within zero count bound outcome state w h = tt
  run_loop-Within (suc fuel) count bound outcome state w h =
      elim (Bool-cases (is_continue outcome && ltb count (max_iterations stage_input))) [
        | inr ends ↦ rw ends (omega arith)
        | inl goes_on ↦
            let below : count < max_iterations stage_input = ground arith in
            let one = (run_iteration-Spends count state).at_most w in
            rw goes_on (
              follow-Within (run_loop collaborators stage_input fuel) count bound
                (run_iteration collaborators stage_input count state w).0
                (run_iteration collaborators stage_input count state w).1 (omega arith)
                λ outcome' state'.
                  run_loop-Within fuel (suc count) bound outcome' state' _ (omega arith))
      ]

  build_from-Within :
      (bound : ℕ) (end : Option (Result LoopEnd × W))
      → Within bound end
      → Within bound (build_from collaborators stage_input end)
  unfolding build_from
  build_from-Within bound none h = tt
  build_from-Within bound (some (end, w)) h = h

  start-Within :
      (coverage : Result EvidenceCoverageMap) (w : W)
      → Within (meter w + max_iterations stage_input) (start collaborators stage_input coverage w)
  unfolding start
  start-Within (raised e) w = omega arith
  start-Within (ok coverage) w = build_from-Within _ _ (
      run_loop-Within (suc (max_iterations stage_input)) 0 _ continue
        (initial_run_state stage_input coverage) w (omega arith))

  -- The call came back, and the meter is within a bound.
  returned-Within :
      (json_text : _) (bound : ℕ) (end : Option (Result ResearchStageResult × W))
      → Answers json_text stage_input end
      → Within bound end
      → (r : Result ResearchStageResult) × (w : W) × (end ≡ some (r, w)) × (meter w ≤ bound)
  returned-Within json_text bound none answers h = absurd answers
  returned-Within json_text bound (some (r, w)) answers h = (r, w, refl, h)

  -- If a meter counts the calls of the tool execution layer, then `execute` comes back, with a result
  -- or an exception, after at most as many of these calls as the budget has iterations, whatever the
  -- collaborators answer.
  pub execute_request_bound :
      (w : W)
      → (r : Result ResearchStageResult) × (after : W) × (execute collaborators stage_input w
          ≡ some (r, after))
        × (meter after ≤ meter w + max_iterations stage_input)
  unfolding execute
  execute_request_bound w =
      returned-Within collaborators.json_text (meter w + max_iterations stage_input)
        (execute collaborators stage_input w) (execute-Answers collaborators stage_input w)
        (start-Within (initial_map stage_input) w)
