-- ===== src/Executor/Coverage.antt =====
-- The coverage tracker (app/services/executor/research_coverage_tracker.py): which evidence covers
-- which target of a research stage.
use vertical_ai_research_act.Prelude.{
  ℕ, suc, ◌+◌, String, ◌<>◌, Bool, true, false, not, ◌&&◌, Option, none, some, List, [], ◌∷◌, ◌++◌,
  map, length, filter, any, is_empty, contains, dedupe, string_eq, eqb, if◌then◌else◌,
}
use vertical_ai_research_act.Prelude.Result.{
  Result, ok, raised, value_error, validation_error, ◌>>=◌, ◌>>◌,
}
use vertical_ai_research_act.Text.{is_blank, strip, unique_non_empty_strings}
use vertical_ai_research_act.Text.Decimal.{decimal}
use vertical_ai_research_act.Domain.Evidence.{ProcessedEvidenceUnit}
use vertical_ai_research_act.Domain.ResearchStage.{ResearchStageInput}
use vertical_ai_research_act.Executor.Enums.{
  ResearchCoverageTargetType, ResearchCoverageStatus, objective, sub_question, comparison_candidate,
  not_covered,
}
use vertical_ai_research_act.Executor.Payloads.{
  LlmEvidenceCoverageEntryPayload, LlmResearchAssessmentAndGapsPayload, LlmNextEvidenceNeedPayload,
}
use vertical_ai_research_act.Executor.State.{
  EvidenceCoverageEntry, EvidenceCoverageMap, ResearchExecutorRunState, target_keys, find_entry,
  put_entry, require_current_iteration, ResearchExecutorIterationState,
}
use vertical_ai_research_act.Executor.Support.{required_text}
pub mod Validation
pub mod Entries
pub mod Linked
pub mod Snapshot
pub mod Targets

-- `_EvidenceCoverageTarget`, with its texts stripped.
pub record EvidenceCoverageTarget : Type 0 where
  pub target_key : String
  pub target_type : ResearchCoverageTargetType
  pub target_text : String

-- The texts that are not blank, as targets of one type, numbered by their place.
unfoldable numbered_targets :
    ResearchCoverageTargetType → String → ℕ → List String → List EvidenceCoverageTarget
unfolding strip decimal
numbered_targets type prefix index [] = []
numbered_targets type prefix index (text ∷ texts) =
    let rest = numbered_targets type prefix (suc index) texts in
    if is_blank (strip text)
    then rest
    else record {
      target_key = prefix <> decimal index;
      target_type = type;
      target_text = strip text;
    }
      ∷ rest

-- The targets for a stated objective.
unfoldable targets_for : ResearchStageInput → String → List EvidenceCoverageTarget
unfolding numbered_targets
targets_for stage_input goal =
    record { target_key = "objective"; target_type = objective; target_text = goal }
    ∷ (numbered_targets sub_question "sub_question:" 1 stage_input.sub_questions
        ++ numbered_targets comparison_candidate "comparison_candidate:" 1
            stage_input.comparison_candidates)

-- `coverage_targets`
unfoldable pub coverage_targets : ResearchStageInput → Result (List EvidenceCoverageTarget)
unfolding targets_for required_text
coverage_targets stage_input = do
  goal ←
      required_text stage_input.user_goal (some stage_input.original_query)
        "current_research_objective"
  ok (targets_for stage_input goal)

abbrev initial_entry : EvidenceCoverageTarget → EvidenceCoverageEntry
initial_entry target = record {
  target_type = target.target_type;
  target_text = target.target_text;
  coverage_status = not_covered;
  retrieved_evidence_keys = [];
  supporting_evidence_keys = [];
  uncovered_aspects = [];
  coverage_summary = "尚未完成语义覆盖判断。";
}

-- The dictionary comprehension over the targets.
unfoldable put_targets : EvidenceCoverageMap → List EvidenceCoverageTarget → EvidenceCoverageMap
unfolding put_entry
put_targets entries [] = entries
put_targets entries (target ∷ targets) =
    put_targets (put_entry entries target.target_key (initial_entry target)) targets

-- `initial_map`
unfoldable pub initial_map : ResearchStageInput → Result EvidenceCoverageMap
unfolding coverage_targets put_targets
initial_map stage_input = do targets ← coverage_targets stage_input; ok (put_targets [] targets)

abbrev pub unit_id : ProcessedEvidenceUnit → String
unit_id unit = unit.evidence_unit_id

-- `record_candidate_evidence`, once the target's entry is found.
unfoldable pub record_on_entry :
    String
    → ResearchExecutorRunState
    → ResearchExecutorIterationState
    → EvidenceCoverageEntry
    → Result ResearchExecutorRunState
unfolding unique_non_empty_strings put_entry
record_on_entry key state iteration entry =
    let new_evidence_keys = map unit_id iteration.processed_evidence_units in
    if is_empty new_evidence_keys
    then ok state
    else ok (record state {
      evidence_coverage_map = put_entry state.evidence_coverage_map key (record entry {
        retrieved_evidence_keys =
            unique_non_empty_strings (entry.retrieved_evidence_keys ++ new_evidence_keys);
      });
    })

-- `record_candidate_evidence`, where the target has been looked up. A missing entry is reported before
-- a missing iteration.
unfoldable pub record_found :
    String
    → ResearchExecutorRunState
    → Option EvidenceCoverageEntry
    → Result ResearchExecutorRunState
unfolding record_on_entry require_current_iteration
record_found key state none = raised (
    value_error
      "next_evidence_need.coverage_target_key must reference an existing coverage target.")
record_found key state (some entry) = do
  iteration ← require_current_iteration state
  record_on_entry key state iteration entry

-- `record_candidate_evidence`, for the evidence need of the state.
unfoldable pub record_for_need :
    ResearchExecutorRunState → Option LlmNextEvidenceNeedPayload → Result ResearchExecutorRunState
unfolding record_found find_entry
record_for_need state none = raised (value_error "next_evidence_need is required before Step 6.")
record_for_need state (some need) =
    record_found need.coverage_target_key state
      (find_entry state.evidence_coverage_map need.coverage_target_key)

-- `record_candidate_evidence`
unfoldable pub record_candidate_evidence :
    ResearchExecutorRunState → Result ResearchExecutorRunState
unfolding record_for_need
record_candidate_evidence state = record_for_need state state.next_evidence_need

-- Raises unless the test holds.
abbrev pub ensure : Bool → String → Result (Unit {0})
ensure true message = ok tt
ensure false message = raised (value_error message)

-- `all(x in ys for x in xs)`
abbrev pub all_in : List String → List String → Bool
all_in [] ys = true
all_in (x ∷ xs) ys = contains ys x && all_in xs ys

abbrev pub snapshot_keys : List LlmEvidenceCoverageEntryPayload → List String
snapshot_keys [] = []
snapshot_keys (entry ∷ snapshot) = entry.target_key ∷ snapshot_keys snapshot
