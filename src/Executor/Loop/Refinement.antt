-- ===== src/Executor/Loop/Refinement.antt =====
-- The executor against its contract: what a caller gets, whatever the collaborators do.
use vertical_ai_research_act.Prelude.{
  suc, ◌≡◌, ◌≤◌, refl, String, Option, none, some, is_some, List, Distinct, All, string_eq,
}
use vertical_ai_research_act.Prelude.Result.{Result, ok, raised}
use vertical_ai_research_act.Prelude.Act.{Returned}
use vertical_ai_research_act.Text.Laws.{IsNormal}
use vertical_ai_research_act.Domain.Retrieval.{SourceReference}
use vertical_ai_research_act.Domain.ResearchStage.{ResearchStageInput, ResearchStageResult}
use vertical_ai_research_act.Executor.Enums.{continue}
use vertical_ai_research_act.Executor.State.{EvidenceCoverageMap, target_keys}
use vertical_ai_research_act.Executor.Support.{max_iterations}
use vertical_ai_research_act.Executor.Collaborators.{Collaborators}
use vertical_ai_research_act.Executor.Coverage.{initial_map}
use vertical_ai_research_act.Executor.Coverage.Targets.{initial_map-Distinct}
use vertical_ai_research_act.Executor.StageResult.{is_failed_status}
use vertical_ai_research_act.Executor.StageResult.Built.{build-IsSound}
use vertical_ai_research_act.Executor.StageResult.References.{keys_of}
use vertical_ai_research_act.Executor.Loop.{LoopEnd, run_loop, build_from, start, execute}
use vertical_ai_research_act.Executor.Loop.Inputs.{initial_run_state}
use vertical_ai_research_act.Executor.Loop.Termination.{HasEnded, run_loop-returns}

-- What the executor promises of a result.
pub record IsStageResult (json_text : SourceReference → String) (stage_input : ResearchStageInput)
    (result : ResearchStageResult) : Type 0 where
  pub bounded : result.executed_iteration_count ≤ max_iterations stage_input
  pub findings : All IsNormal result.intermediate_findings × Distinct result.intermediate_findings
  pub questions : All IsNormal result.open_questions × Distinct result.open_questions
  pub references : Distinct (keys_of json_text result.retrieved_evidence_refs)
  pub error_iff : is_some result.error_info ≡ is_failed_status result.research_status

-- The call has come back, and what it returns is as promised.
abbrev pub Answers :
    {W : Type 0}
    → (SourceReference → String)
    → ResearchStageInput
    → Option (Result ResearchStageResult × W)
    → Type 0
Answers json_text stage_input none = ⊥
Answers json_text stage_input (some (r, w)) = Returned (IsStageResult json_text stage_input) r

module _ {W : Type 0} (collaborators : Collaborators W) (stage_input : ResearchStageInput) where
  build_from-Answers :
      (keys : List String) (end : Option (Result LoopEnd × W))
      → HasEnded stage_input keys end
      → Answers collaborators.json_text stage_input (build_from collaborators stage_input end)
  unfolding build_from
  build_from-Answers keys none h = h
  build_from-Answers keys (some (raised e, w)) h = tt
  build_from-Answers keys (some (ok end, w)) h =
      let (result, built, sound) =
        build-IsSound collaborators.json_text stage_input end.run_state h.iteration
          end.executed_iteration_count end.final_outcome h.known in
      rw built (record {
        bounded = rw sound.counted h.bounded;
        findings = sound.findings;
        questions = sound.questions;
        references = sound.references;
        error_iff = sound.error_iff;
      })

  start-Answers :
      (coverage : Result EvidenceCoverageMap) (w : W)
      → initial_map stage_input ≡ coverage
      → Answers collaborators.json_text stage_input (start collaborators stage_input coverage w)
  unfolding start
  start-Answers (raised e) w h = tt
  start-Answers (ok coverage) w h =
      build_from-Answers (target_keys coverage)
        (run_loop collaborators stage_input (suc (max_iterations stage_input)) 0 continue
          (initial_run_state stage_input coverage) w)
        (run_loop-returns collaborators stage_input coverage w
          (initial_map-Distinct stage_input coverage h))

  -- Whatever the collaborators do, `execute` comes back; a result that it returns counts at most the
  -- budgeted iterations, has normalised findings and open questions, each once, references with
  -- different keys, and an error exactly if its status is `failed`.
  pub execute-Answers :
      (w : W) → Answers collaborators.json_text stage_input (execute collaborators stage_input w)
  unfolding execute
  execute-Answers w = start-Answers (initial_map stage_input) w refl
