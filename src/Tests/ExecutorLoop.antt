-- ===== src/Tests/ExecutorLoop.antt =====
-- Runs of the research executor.
use vertical_ai_research_act.Prelude.{
  ℕ, suc, ◌+◌, ◌≤◌, ◌≡◌, ◌⊎◌, refl, arith, String, true, Option, none, some, [], ◌∷◌, map, All,
  Distinct, string_eq, contains,
}
use vertical_ai_research_act.Prelude.Result.{Result, ok, external}
use vertical_ai_research_act.Prelude.Act.{Ensures}
use vertical_ai_research_act.Text.{is_space}
use vertical_ai_research_act.Domain.Enums.{family_eq, docs_search, web_search, external_acquisition}
use vertical_ai_research_act.Domain.ResearchStage.{ResearchStageResult}
use vertical_ai_research_act.Domain.Requests.{
  ToolExecutionLayerRequest, direct_fact, fresh_preferred, normal_breadth,
}
use vertical_ai_research_act.Executor.Enums.{
  ResearchIterationOutcome, continue, degrade, partially_covered, objective,
}
use vertical_ai_research_act.Executor.State.{
  EvidenceCoverageMap, ResearchExecutorRunState, target_keys,
}
use vertical_ai_research_act.Executor.Support.{max_iterations}
use vertical_ai_research_act.Executor.Coverage.{
  EvidenceCoverageTarget, coverage_targets, initial_map, unit_id,
}
use vertical_ai_research_act.Executor.Coverage.Targets.{key_of, IsInitial, initial_map_complete}
use vertical_ai_research_act.Executor.Coverage.Validation.{validated_map}
use vertical_ai_research_act.Executor.Coverage.Snapshot.{AllUpdates, validated_map_sound}
use vertical_ai_research_act.Executor.Assessor.{ResearchStateAssessorOutput, accept}
use vertical_ai_research_act.Executor.Assessor.Accepted.{IsAccepted, accept-IsAccepted}
use vertical_ai_research_act.Executor.Acquirer.{request_of, tool_execution_layer_request}
use vertical_ai_research_act.Executor.Acquirer.Wiring.{
  IsRequestFor, tool_execution_layer_request-IsRequestFor,
}
use vertical_ai_research_act.Executor.Outcome.{evaluate}
use vertical_ai_research_act.Executor.Outcome.Guardrails.{IsAffordable, evaluate-IsAffordable}
use vertical_ai_research_act.Executor.Outcome.Written.{IsWritten, evaluate-IsWritten}
use vertical_ai_research_act.Executor.StageResult.{build}
use vertical_ai_research_act.Executor.StageResult.Built.{IsSound, build-IsSound}
use vertical_ai_research_act.Executor.Collaborators.{Collaborators}
use vertical_ai_research_act.Executor.Loop.{LoopEnd, run_loop, execute}
use vertical_ai_research_act.Executor.Loop.Interruption.{
  IsLost, IsSalvaged, answer_to, interruption_answers,
}
use vertical_ai_research_act.Executor.Loop.Metered.{IsMeter}
use vertical_ai_research_act.Executor.Loop.Requests.{execute_request_bound}
use vertical_ai_research_act.Executor.Loop.Inputs.{initial_run_state, assessor_input}
use vertical_ai_research_act.Executor.Loop.Termination.{HasEnded, run_loop-returns}
use vertical_ai_research_act.Executor.Loop.Refinement.{Answers, execute-Answers}
use vertical_ai_research_act.Tests.ExecutorData.{
  stage_input, collaborators, coverage, entry_of_objective, unit, assessment_answer, outcome_answer,
  first_iteration, first_state, search_input, nothing_found,
}

execute-Answers_example :
    Answers collaborators.json_text stage_input (execute collaborators stage_input 0)
execute-Answers_example = execute-Answers collaborators stage_input 0

run_loop-returns_example : HasEnded stage_input (target_keys coverage) (
    run_loop collaborators stage_input
      (suc (max_iterations stage_input))
      0
      continue
      (initial_run_state stage_input coverage)
      0)
run_loop-returns_example = run_loop-returns collaborators stage_input coverage 0 (refl, tt)

-- The same collaborators, with a world that counts the requests to the tool execution layer.
abbrev counting : Collaborators ℕ
counting = record {
  answer_assessment = λ input w. (ok assessment_answer, w);
  execute_tools = collaborators.execute_tools;
  process_evidence = λ request w. (ok nothing_found, w);
  answer_findings = λ input state w.
      (ok (record { intermediate_findings = "a flag" ∷ []; finding_caveats = [] }), w);
  answer_outcome = λ input state w. (ok outcome_answer, w);
  fingerprint = collaborators.fingerprint;
  json_text = collaborators.json_text;
}

counting-IsMeter : IsMeter counting (λ w. w)
counting-IsMeter = record {
  assessing = λ input w. refl;
  requesting = λ request w. omega arith;
  processing = λ request w. refl;
  refining = λ input state w. refl;
  evaluating = λ input state w. refl;
}

execute_request_bound_example :
    (r : Result ResearchStageResult) × (after : ℕ) × (execute counting stage_input 0
      ≡ some (r, after))
    × (after ≤ 0 + max_iterations stage_input)
execute_request_bound_example =
    execute_request_bound counting stage_input (λ w. w) counting-IsMeter 0

abbrev no_more :
    ℕ → ResearchIterationOutcome → ResearchExecutorRunState → ℕ → Option (Result LoopEnd × ℕ)
no_more count outcome state w = none

interruption_answers_example :
    IsLost collaborators stage_input first_state (external "timeout") 7 (
      answer_to collaborators stage_input no_more "assessment" (external "timeout") 0 7 first_state)
    ⊎ IsSalvaged collaborators stage_input first_state 0 7 (
        answer_to collaborators stage_input no_more "assessment"
          (external "timeout")
          0
          7
          first_state)
interruption_answers_example =
    interruption_answers collaborators stage_input no_more "assessment" (external "timeout") 0 7
      first_state first_iteration refl

evaluate-IsAffordable_example :
    Ensures
      (IsAffordable stage_input first_iteration)
      (evaluate collaborators stage_input first_state)
evaluate-IsAffordable_example =
    evaluate-IsAffordable collaborators stage_input first_state first_iteration refl

evaluate-IsWritten_example :
    Ensures (IsWritten first_state first_iteration) (evaluate collaborators stage_input first_state)
evaluate-IsWritten_example =
    evaluate-IsWritten collaborators stage_input first_state first_iteration refl

abbrev objective_target : EvidenceCoverageTarget
objective_target = record {
  target_key = "objective";
  target_type = objective;
  target_text = "which release added the flag";
}

the_targets : coverage_targets stage_input ≡ ok (objective_target ∷ [])
unfolding coverage_targets is_space
the_targets = refl

initial_map_complete_example :
    (made : EvidenceCoverageMap) × (initial_map stage_input ≡ ok made)
    × (target_keys made ≡ map key_of (objective_target ∷ []))
    × Distinct (map key_of (objective_target ∷ []))
    × All (IsInitial made) (objective_target ∷ [])
initial_map_complete_example = initial_map_complete stage_input (objective_target ∷ []) the_targets

abbrev updated_coverage : EvidenceCoverageMap
updated_coverage =
    (
      "objective",
      record entry_of_objective {
        coverage_status = partially_covered;
        supporting_evidence_keys = "iteration_1:a" ∷ [];
        coverage_summary = "one note found";
      },
    )
    ∷ []

validated : validated_map coverage (unit ∷ []) assessment_answer ≡ ok updated_coverage
unfolding validated_map is_space
validated = refl

validated_map_sound_example :
    Distinct (target_keys updated_coverage)
    × ((k : String) → contains (target_keys updated_coverage) k ≡ contains (target_keys coverage) k)
    × (contains (target_keys updated_coverage) "objective" ≡ true)
    × AllUpdates coverage (map unit_id (unit ∷ [])) updated_coverage
validated_map_sound_example =
    validated_map_sound coverage updated_coverage (unit ∷ []) assessment_answer validated

abbrev accepted_output : ResearchStateAssessorOutput
accepted_output = record {
  assessment = assessment_answer.assessment;
  identified_gaps = assessment_answer.identified_gaps;
  top_gap = assessment_answer.top_gap;
  next_evidence_need = assessment_answer.next_evidence_need;
  evidence_coverage_map = updated_coverage;
  prioritization_summary = assessment_answer.prioritization_summary;
  action_mode = assessment_answer.action_mode;
  preferred_family = assessment_answer.preferred_family;
  retrieval_query = assessment_answer.retrieval_query;
  action_rationale = assessment_answer.action_rationale;
}

accepted :
    accept (assessor_input stage_input first_state first_iteration) assessment_answer
    ≡ ok accepted_output
unfolding accept assessor_input is_space
accepted = refl

accept-IsAccepted_example :
    IsAccepted (assessor_input stage_input first_state first_iteration) accepted_output
accept-IsAccepted_example =
    accept-IsAccepted (assessor_input stage_input first_state first_iteration) assessment_answer
      accepted_output accepted

abbrev search_request : ToolExecutionLayerRequest
unfolding request_of
search_request =
    request_of search_input (docs_search ∷ web_search ∷ []) "the release notes" external_acquisition
      (record {
        desired_evidence_kind = direct_fact;
        freshness_requirement = fresh_preferred;
        breadth = normal_breadth;
      })

requested : tool_execution_layer_request search_input ≡ ok search_request
unfolding tool_execution_layer_request is_space
requested = refl

tool_execution_layer_request-IsRequestFor_example : IsRequestFor search_input search_request
tool_execution_layer_request-IsRequestFor_example =
    tool_execution_layer_request-IsRequestFor search_input search_request (web_search, refl, refl)
      refl requested

build-IsSound_example :
    (result : ResearchStageResult) × (build collaborators.json_text stage_input first_state 1
        degrade
      ≡ ok result)
    × IsSound collaborators.json_text first_state 1 degrade result
build-IsSound_example =
    build-IsSound collaborators.json_text stage_input first_state first_iteration 1 degrade refl
