-- ===== src/Executor/Loop/Recording.antt =====
-- Recording evidence and evaluating an iteration keep the invariant, and an evaluation asks for another
-- iteration only within the budget.
use vertical_ai_research_act.Prelude.{
  ℕ, suc, ◌≡◌, ◌<◌, refl, ◌∙◌, String, true, Option, none, some, List, arith, string_eq, inl, inr,
  Bool-cases, is_empty, map,
}
use vertical_ai_research_act.Prelude.Act.{
  Returned, Ensures, Ensures-then, Ensures-pure, Ensures-both, Ensures-weaken,
}
use vertical_ai_research_act.Domain.ResearchStage.{ResearchStageInput}
use vertical_ai_research_act.Executor.Enums.{ResearchIterationOutcome, is_continue}
use vertical_ai_research_act.Executor.Payloads.{LlmNextEvidenceNeedPayload}
use vertical_ai_research_act.Executor.State.{
  EvidenceCoverageEntry, find_entry, ResearchExecutorIterationState, ResearchExecutorRunState,
}
use vertical_ai_research_act.Executor.Support.{
  max_iterations, remaining_iteration_budget_after_current,
}
use vertical_ai_research_act.Executor.Collaborators.{Collaborators}
use vertical_ai_research_act.Executor.Coverage.{
  record_candidate_evidence, record_for_need, record_found, record_on_entry, unit_id,
}
use vertical_ai_research_act.Executor.Coverage.Entries.{
  target_keys-put_known, Distinct-put_entry, key_found,
}
use vertical_ai_research_act.Executor.Outcome.{
  evaluate, evaluate_from, decided_by_rule, decided_by_model,
}
use vertical_ai_research_act.Executor.Outcome.Guardrails.{IsAffordable, evaluate-IsAffordable}
use vertical_ai_research_act.Executor.Loop.Invariant.{IsRunning, iteration_known}

-- The same state, with one more recorded result allowed.
pub IsRunning-suc :
    (keys : List String) (count calls : ℕ) (state : ResearchExecutorRunState)
    → IsRunning keys count calls state
    → IsRunning keys count (suc calls) state
IsRunning-suc keys count calls state inv = record {
  once = inv.once;
  same_targets = inv.same_targets;
  recent = inv.recent;
  iteration = inv.iteration;
  under_way = inv.under_way;
  index = inv.index;
  called = omega (arith, inv.called);
}

module _ (keys : List String) (count calls : ℕ) (state : ResearchExecutorRunState)
    (inv : IsRunning keys count calls state) where
  record_on_entry-IsRunning :
      (key : String) (iteration : ResearchExecutorIterationState) (entry : EvidenceCoverageEntry)
      → find_entry state.evidence_coverage_map key ≡ some entry
      → Returned (IsRunning keys count calls) (record_on_entry key state iteration entry)
  unfolding record_on_entry
  record_on_entry-IsRunning key iteration entry f =
      elim (Bool-cases (is_empty (map unit_id iteration.processed_evidence_units))) [
        | inl nothing ↦ rw nothing inv
        | inr new ↦ rw new (record {
          once = Distinct-put_entry state.evidence_coverage_map key _ inv.once;
          same_targets = λ k.
              target_keys-put_known state.evidence_coverage_map key k _
                (key_found state.evidence_coverage_map key entry f)
              ∙ inv.same_targets k;
          recent = inv.recent;
          iteration = inv.iteration;
          under_way = inv.under_way;
          index = inv.index;
          called = inv.called;
        })
      ]

  record_found-IsRunning :
      (key : String) (entry : Option EvidenceCoverageEntry)
      → find_entry state.evidence_coverage_map key ≡ entry
      → Returned (IsRunning keys count calls) (record_found key state entry)
  unfolding record_found
  record_found-IsRunning key none f = tt
  record_found-IsRunning key (some entry) f =
      rw (iteration_known state inv.iteration inv.under_way)
        (record_on_entry-IsRunning key inv.iteration entry f)

  record_for_need-IsRunning :
      (need : Option LlmNextEvidenceNeedPayload)
      → Returned (IsRunning keys count calls) (record_for_need state need)
  unfolding record_for_need
  record_for_need-IsRunning none = tt
  record_for_need-IsRunning (some need) = record_found-IsRunning need.coverage_target_key _ refl

  pub record_candidate_evidence-IsRunning :
      Returned (IsRunning keys count calls) (record_candidate_evidence state)
  unfolding record_candidate_evidence
  record_candidate_evidence-IsRunning = record_for_need-IsRunning state.next_evidence_need

module _ {W : Type 0} (collaborators : Collaborators W) (stage_input : ResearchStageInput)
    (keys : List String) (count calls : ℕ) (state : ResearchExecutorRunState)
    (inv : IsRunning keys count calls state) where
  abbrev KeepsRunning : ResearchIterationOutcome × ResearchExecutorRunState → Type 0
  KeepsRunning (outcome, after) = IsRunning keys count calls after

  evaluate_from-IsRunning :
      (decision : Option (ResearchIterationOutcome × String))
      → Ensures KeepsRunning (evaluate_from collaborators stage_input state inv.iteration decision)
  unfolding evaluate_from decided_by_rule decided_by_model
  evaluate_from-IsRunning (some (outcome, rationale)) =
      Ensures-pure KeepsRunning (decided_by_rule state inv.iteration outcome rationale) (record {
        once = inv.once;
        same_targets = inv.same_targets;
        recent = inv.recent;
        iteration = _;
        under_way = refl;
        index = inv.index;
        called = inv.called;
      })
  evaluate_from-IsRunning none =
      Ensures-then KeepsRunning (collaborators.answer_outcome stage_input state) _ λ payload.
        Ensures-pure KeepsRunning (decided_by_model stage_input state inv.iteration payload)
          (record {
            once = inv.once;
            same_targets = inv.same_targets;
            recent = inv.recent;
            iteration = _;
            under_way = refl;
            index = inv.index;
            called = inv.called;
          })

  -- The state goes on running, and the outcome is `continue` only within the budget.
  abbrev pub IsEvaluated : ResearchIterationOutcome × ResearchExecutorRunState → Type 0
  IsEvaluated (outcome, after) =
      IsRunning keys count calls after
      × (is_continue outcome ≡ true → suc count < max_iterations stage_input)

  evaluate-KeepsRunning : Ensures KeepsRunning (evaluate collaborators stage_input state)
  unfolding evaluate
  evaluate-KeepsRunning =
      rw (iteration_known state inv.iteration inv.under_way) (evaluate_from-IsRunning _)

  pub evaluate-IsEvaluated : Ensures IsEvaluated (evaluate collaborators stage_input state)
  unfolding remaining_iteration_budget_after_current
  evaluate-IsEvaluated =
      Ensures-weaken (λ p. KeepsRunning p × IsAffordable stage_input inv.iteration p) IsEvaluated
        (evaluate collaborators stage_input state)
        (λ (outcome, after) (running, affordable).
          (running, λ goes_on. omega (arith, affordable goes_on, inv.index)))
        (Ensures-both KeepsRunning (IsAffordable stage_input inv.iteration) _ evaluate-KeepsRunning
          (evaluate-IsAffordable collaborators stage_input state inv.iteration inv.under_way))
