-- ===== src/Executor/StageResult/Evidence.antt =====
-- The references and the summary of the evidence in the result of a research stage.
use Prim.Native.Nat.{Ordering}
use Prim.Native.String as Str
use vertical_ai_research_act.Prelude.{
  String, ◌<>◌, Bool, true, false, not, Option, none, some, List, [], ◌∷◌, ◌++◌, map, length,
  filter, is_empty, contains, dedupe, string_eq, ◌==◌, if◌then◌else◌,
}
use vertical_ai_research_act.Text.{is_blank, is_given, text_or, or_blank, join}
use vertical_ai_research_act.Text.Decimal.{decimal}
use vertical_ai_research_act.Domain.Enums.{family_value}
use vertical_ai_research_act.Domain.Retrieval.{SourceReference}
use vertical_ai_research_act.Domain.Evidence.{
  ProcessedEvidenceUnit, EvidenceProcessingResult, evidence_type_value, processing_status_value,
}
use vertical_ai_research_act.Executor.State.{ResearchExecutorRunState}
use vertical_ai_research_act.Executor.Support.{latest_evidence_processing_result}

-- `str < str`, by code points
abbrev precedes : String → String → Bool
precedes s t = elim (Str.compare s t) [ Ordering.lt ↦ true | _ ↦ false ]

unfoldable insert_sorted : String → List String → List String
insert_sorted s [] = s ∷ []
insert_sorted s (t ∷ rest) =
    let later = insert_sorted s rest in if precedes t s then t ∷ later else s ∷ t ∷ rest

-- `sorted(values)`
unfoldable sorted : List String → List String
unfolding insert_sorted
sorted [] = []
sorted (s ∷ values) = insert_sorted s (sorted values)

module _ (json_text : SourceReference → String) where
  -- `deduplication_key`
  unfoldable pub deduplication_key : SourceReference → String
  deduplication_key reference =
      if is_given reference.source_url
      then "url:" <> or_blank reference.source_url
      else if is_given reference.source_id
      then "id:" <> or_blank reference.source_id_type <> ":" <> or_blank reference.source_id
      else if is_given reference.citation_text
      then "citation:" <> or_blank reference.citation_text
      else "json:" <> json_text reference

  -- The inner loop, over the references of a unit, with the keys seen so far.
  unfoldable pub unique_references : List String → List SourceReference → List SourceReference
  unfolding deduplication_key
  unique_references seen [] = []
  unique_references seen (reference ∷ references) =
      let key = deduplication_key reference in
      let rest = unique_references (if contains seen key then seen else key ∷ seen) references in
      if contains seen key then rest else reference ∷ rest

abbrev pub all_references : List ProcessedEvidenceUnit → List SourceReference
all_references [] = []
all_references (unit ∷ units) = unit.source_references ++ all_references units

-- `_source_references_from_processed_evidence`: the two loops run over the references in order.
unfoldable pub source_references_from_processed_evidence :
    (SourceReference → String) → List ProcessedEvidenceUnit → List SourceReference
unfolding unique_references
source_references_from_processed_evidence json_text units =
    unique_references json_text [] (all_references units)

abbrev families_of : List ProcessedEvidenceUnit → List String
families_of [] = []
families_of (unit ∷ units) = elim unit.source_family [
  | none ↦ families_of units
  | some family ↦ family_value family ∷ families_of units
]

abbrev source_types_of : List SourceReference → List String
source_types_of references =
    filter (λ s. not (is_blank s)) (map (λ (r : SourceReference). r.source_type) references)

-- The sorted items of the `Counter`, as texts.
abbrev type_counts : List String → List String → List String
type_counts types [] = []
type_counts types (t ∷ distinct) =
    (t <> ":" <> decimal (length (filter (λ u. u == t) types))) ∷ type_counts types distinct

-- `', '.join(values) or 'none'`
abbrev listed : List String → String
listed values = text_or (some (join ", " values)) "none"

abbrev processing_status_of : Option EvidenceProcessingResult → String
processing_status_of none = "not_requested"
processing_status_of (some result) = processing_status_value result.processing_status

-- `_evidence_summary_from_run_state`
unfoldable pub evidence_summary_from_run_state :
    ResearchExecutorRunState → List ProcessedEvidenceUnit → Option String
unfolding sorted filter dedupe decimal latest_evidence_processing_result
evidence_summary_from_run_state state units =
    let types =
      map (λ (unit : ProcessedEvidenceUnit). evidence_type_value unit.evidence_type) units in
    let status = processing_status_of (latest_evidence_processing_result state) in
    if is_empty units
    then none
    else some (
        "processed_evidence_count="
        <> decimal (length units)
        <> "; evidence_types="
        <> listed (type_counts types (sorted (dedupe types)))
        <> "; source_families="
        <> listed (sorted (dedupe (families_of units)))
        <> "; source_types="
        <> listed (sorted (dedupe (source_types_of (all_references units))))
        <> "; last_processing_status="
        <> status)
