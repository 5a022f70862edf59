-- ===== src/Executor/Coverage/Validation.antt =====
-- `validated_map` of the coverage tracker: the language model's snapshot is checked against the
-- targets and the evidence, and merged with what the previous map knows.
use vertical_ai_research_act.Prelude.{
  Option, String, ◌&&◌, none, some, List, [], ◌∷◌, map, length, filter, contains, dedupe, string_eq,
  eqb, if◌then◌else◌,
}
use vertical_ai_research_act.Prelude.Result.{
  Result, ok, raised, external, validation_error, ◌>>=◌, ◌>>◌,
}
use vertical_ai_research_act.Text.{is_blank, strip, unique_non_empty_strings}
use vertical_ai_research_act.Domain.Evidence.{ProcessedEvidenceUnit}
use vertical_ai_research_act.Executor.Payloads.{
  LlmEvidenceCoverageEntryPayload, LlmResearchAssessmentAndGapsPayload,
}
use vertical_ai_research_act.Executor.State.{
  EvidenceCoverageEntry, EvidenceCoverageMap, target_keys, find_entry, put_entry,
}
use vertical_ai_research_act.Executor.Coverage.{unit_id, ensure, all_in, snapshot_keys}

-- `EvidenceCoverageEntry(...)` with stripped texts, which may not be empty.
unfoldable pub new_entry :
    List String
    → EvidenceCoverageEntry
    → LlmEvidenceCoverageEntryPayload
    → Result EvidenceCoverageEntry
unfolding strip unique_non_empty_strings filter
new_entry valid_keys previous entry =
    if is_blank (strip previous.target_text)
    then raised (validation_error "EvidenceCoverageEntry")
    else if is_blank (strip entry.coverage_summary)
    then raised (validation_error "EvidenceCoverageEntry")
    else ok (record {
      target_type = previous.target_type;
      target_text = strip previous.target_text;
      coverage_status = entry.coverage_status;
      retrieved_evidence_keys =
          unique_non_empty_strings
            (filter (λ key. contains valid_keys key) previous.retrieved_evidence_keys);
      supporting_evidence_keys = unique_non_empty_strings entry.supporting_evidence_keys;
      uncovered_aspects = unique_non_empty_strings entry.uncovered_aspects;
      coverage_summary = strip entry.coverage_summary;
    })

-- `previous_coverage_map[entry.target_key]` has been looked up.
unfoldable pub merge_entry :
    List String
    → LlmEvidenceCoverageEntryPayload
    → Option EvidenceCoverageEntry
    → Result EvidenceCoverageEntry
unfolding new_entry
merge_entry valid_keys entry none = raised (external "KeyError")
merge_entry valid_keys entry (some previous) = new_entry valid_keys previous entry

-- One entry of the snapshot, checked and merged.
unfoldable pub checked_entry :
    EvidenceCoverageMap
    → List String
    → LlmEvidenceCoverageEntryPayload
    → Result EvidenceCoverageEntry
unfolding merge_entry unique_non_empty_strings find_entry
checked_entry previous valid_keys entry =
    let supporting = unique_non_empty_strings entry.supporting_evidence_keys in
    do
      ensure (eqb (length supporting) (length entry.supporting_evidence_keys))
          "Research assessment coverage snapshot contains duplicate evidence keys."
      ensure (all_in supporting valid_keys)
          "Research assessment coverage snapshot references unknown evidence keys."
      merge_entry valid_keys entry (find_entry previous entry.target_key)

-- The loop over the snapshot.
unfoldable pub merged_onto :
    EvidenceCoverageMap
    → List String
    → EvidenceCoverageMap
    → List LlmEvidenceCoverageEntryPayload
    → Result EvidenceCoverageMap
unfolding checked_entry put_entry
merged_onto previous valid_keys normalized_map [] = ok normalized_map
merged_onto previous valid_keys normalized_map (entry ∷ snapshot) = do
  checked ← checked_entry previous valid_keys entry
  merged_onto previous valid_keys (put_entry normalized_map entry.target_key checked) snapshot

-- `validated_map`
unfoldable pub validated_map :
    EvidenceCoverageMap
    → List ProcessedEvidenceUnit
    → LlmResearchAssessmentAndGapsPayload
    → Result EvidenceCoverageMap
unfolding merged_onto dedupe
validated_map previous_coverage_map processed_evidence_units payload =
    let expected = target_keys previous_coverage_map in
    let keys = snapshot_keys payload.evidence_coverage_snapshot in
    do
      ensure (eqb (length keys) (length (dedupe keys)))
          "Research assessment coverage snapshot contains duplicates."
      ensure (all_in keys expected && all_in expected keys)
          "Research assessment coverage snapshot must cover every configured target exactly once."
      ensure (contains expected payload.next_evidence_need.coverage_target_key)
          "Research assessment next_evidence_need references an unknown coverage target."
      merged_onto previous_coverage_map (map unit_id processed_evidence_units) []
          payload.evidence_coverage_snapshot
