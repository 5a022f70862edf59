-- ===== src/Executor/StageResult/References.antt =====
-- The references of a stage's result: one for each deduplication key of the evidence.
use text.Mathlib.TextEquality.{eq_iff}
use vertical_ai_research_act.Prelude.{
  ◌≡◌, refl, ◌∙◌, String, not, ◌&&◌, List, [], ◌∷◌, map, arith, contains, Distinct, string_eq,
  ==-refl, Bool-cases, inl, inr,
}
use vertical_ai_research_act.Domain.Retrieval.{SourceReference}
use vertical_ai_research_act.Domain.Evidence.{ProcessedEvidenceUnit}
use vertical_ai_research_act.Executor.StageResult.Evidence.{
  deduplication_key, unique_references, all_references, source_references_from_processed_evidence,
}

module _ (json_text : SourceReference → String) where
  abbrev pub keys_of : List SourceReference → List String
  keys_of references = map (deduplication_key json_text) references

  contains-unique_references :
      (seen : List String) (references : List SourceReference) (k : String)
      → contains (keys_of (unique_references json_text seen references)) k
        ≡ (contains (keys_of references) k && not (contains seen k))
  unfolding unique_references
  contains-unique_references seen [] k = refl
  contains-unique_references seen (r ∷ references) k =
      let key = deduplication_key json_text r in
      elim (Bool-cases (contains seen key)) [
        | inl old ↦
            rw old (ground (arith, eq_iff k key, contains-unique_references seen references k))
        | inr new ↦
            rw new
              (ground (arith, eq_iff k key, contains-unique_references (key ∷ seen) references k))
      ]

  Distinct-unique_references :
      (seen : List String) (references : List SourceReference)
      → Distinct (keys_of (unique_references json_text seen references))
  unfolding unique_references
  Distinct-unique_references seen [] = tt
  Distinct-unique_references seen (r ∷ references) =
      let key = deduplication_key json_text r in
      elim (Bool-cases (contains seen key)) [
        | inl old ↦ rw old (Distinct-unique_references seen references)
        | inr new ↦ rw new (
          contains-unique_references (key ∷ seen) references key ∙ ground (arith, ==-refl key),
          Distinct-unique_references (key ∷ seen) references,
        )
      ]

  -- The references of the result have different keys, and their keys are those of the references of
  -- the evidence.
  pub source_references-Distinct :
      (units : List ProcessedEvidenceUnit)
      → Distinct (keys_of (source_references_from_processed_evidence json_text units))
        × ((k : String)
            → contains (keys_of (source_references_from_processed_evidence json_text units)) k
              ≡ contains (keys_of (all_references units)) k)
  unfolding source_references_from_processed_evidence
  source_references-Distinct units = (
    Distinct-unique_references [] (all_references units),
    λ k. contains-unique_references [] (all_references units) k ∙ ground arith,
  )
