-- ===== src/Executor/Coverage/Snapshot.antt =====
-- A validated coverage map has the targets of the previous one, and the evidence that it links is
-- known.
use vertical_ai_research_act.Prelude.{
  ◌≡◌, refl, sym, ◌∙◌, String, true, ◌&&◌, ◌||◌, Option, none, some, List, [], ◌∷◌, map, arith,
  contains, string_eq, ◌==◌, Distinct, Bool-cases, inl, inr, eq_of_==,
}
use vertical_ai_research_act.Prelude.Result.{ok, returned_parts}
use vertical_ai_research_act.Text.{is_blank, strip, unique_non_empty_strings}
use vertical_ai_research_act.Domain.Evidence.{ProcessedEvidenceUnit}
use vertical_ai_research_act.Executor.Payloads.{
  LlmEvidenceCoverageEntryPayload, LlmResearchAssessmentAndGapsPayload,
}
use vertical_ai_research_act.Executor.State.{
  EvidenceCoverageEntry, EvidenceCoverageMap, target_keys, find_entry, put_entry,
}
use vertical_ai_research_act.Executor.Coverage.{unit_id, all_in, snapshot_keys}
use vertical_ai_research_act.Executor.Coverage.Linked.{all_in-kept}
use vertical_ai_research_act.Executor.Coverage.Validation.{
  new_entry, merge_entry, checked_entry, merged_onto, validated_map,
}
use vertical_ai_research_act.Executor.Coverage.Entries.{
  find_entry-put_entry, target_keys-put_entry, Distinct-put_entry, ensured, contains-all_in,
}

-- An entry has the type and the text of the previous entry for its target, names known evidence as
-- its support, and keeps as retrieved only evidence that is known and that the previous entry had
-- (the keys are stripped).
pub record IsUpdateOf (previous : EvidenceCoverageMap) (valid_keys : List String) (key : String)
    (entry : EvidenceCoverageEntry) : Type 0 where
  pub old : EvidenceCoverageEntry
  pub old_found : find_entry previous key ≡ some old
  pub same_type : entry.target_type ≡ old.target_type
  pub same_text : entry.target_text ≡ strip old.target_text
  pub supported : all_in entry.supporting_evidence_keys valid_keys ≡ true
  pub retrieved_known : all_in entry.retrieved_evidence_keys (map strip valid_keys) ≡ true
  pub retrieved_before :
      all_in entry.retrieved_evidence_keys (map strip old.retrieved_evidence_keys) ≡ true

abbrev pub AllUpdates : EvidenceCoverageMap → List String → EvidenceCoverageMap → Type 0
AllUpdates previous valid_keys entries =
    (k : String) (e : EvidenceCoverageEntry)
    → find_entry entries k ≡ some e
    → IsUpdateOf previous valid_keys k e

module _ (previous : EvidenceCoverageMap) (valid_keys : List String) where
  new_entry-IsUpdateOf :
      (old e : EvidenceCoverageEntry) (entry : LlmEvidenceCoverageEntryPayload)
      → find_entry previous entry.target_key ≡ some old
      → all_in (unique_non_empty_strings entry.supporting_evidence_keys) valid_keys ≡ true
      → new_entry valid_keys old entry ≡ ok e
      → IsUpdateOf previous valid_keys entry.target_key e
  unfolding new_entry
  new_entry-IsUpdateOf old e entry f s h = elim (Bool-cases (is_blank (strip old.target_text))) [
    | inl blank ↦ ground arith
    | inr text ↦ elim (Bool-cases (is_blank (strip entry.coverage_summary))) [
      | inl blank ↦ ground arith
      | inr summary ↦ record {
        old = old;
        old_found = f;
        same_type = ground arith;
        same_text = ground arith;
        supported = ground arith;
        retrieved_known = ground (
          arith,
          all_in-kept (contains valid_keys) old.retrieved_evidence_keys valid_keys
              (λ x there known. known),
        );
        retrieved_before = ground (
          arith,
          all_in-kept (contains valid_keys) old.retrieved_evidence_keys old.retrieved_evidence_keys
              (λ x there known. there),
        );
      }
    ]
  ]

  merge_entry-IsUpdateOf :
      (entry : LlmEvidenceCoverageEntryPayload) (e : EvidenceCoverageEntry)
      (found : Option EvidenceCoverageEntry)
      → find_entry previous entry.target_key ≡ found
      → all_in (unique_non_empty_strings entry.supporting_evidence_keys) valid_keys ≡ true
      → merge_entry valid_keys entry found ≡ ok e
      → IsUpdateOf previous valid_keys entry.target_key e
  unfolding merge_entry
  merge_entry-IsUpdateOf entry e none f s h = cc
  merge_entry-IsUpdateOf entry e (some old) f s h = new_entry-IsUpdateOf old e entry f s h

  checked_entry-IsUpdateOf :
      (entry : LlmEvidenceCoverageEntryPayload) (e : EvidenceCoverageEntry)
      → checked_entry previous valid_keys entry ≡ ok e
      → IsUpdateOf previous valid_keys entry.target_key e
  unfolding checked_entry
  checked_entry-IsUpdateOf entry e h =
      let (counted, h1) = ensured _ _ _ e h in
      let (known, h2) = ensured _ _ _ e h1 in merge_entry-IsUpdateOf entry e _ refl known h2

  put-AllUpdates :
      (entries : EvidenceCoverageMap) (key : String) (e : EvidenceCoverageEntry)
      → AllUpdates previous valid_keys entries
      → IsUpdateOf previous valid_keys key e
      → AllUpdates previous valid_keys (put_entry entries key e)
  put-AllUpdates entries key e all new j found h = elim (Bool-cases (key == j)) [
    | inl same ↦
        let f : e ≡ found = ground (arith, find_entry-put_entry entries key j e) in
        let k : key ≡ j = eq_of_== same in rw (sym k) (rw (sym f) new)
    | inr other ↦ all j found (ground (arith, find_entry-put_entry entries key j e))
  ]

  merged_onto_sound :
      (acc out : EvidenceCoverageMap) (snapshot : List LlmEvidenceCoverageEntryPayload)
      → Distinct (target_keys acc)
      → AllUpdates previous valid_keys acc
      → merged_onto previous valid_keys acc snapshot ≡ ok out
      → Distinct (target_keys out)
        × AllUpdates previous valid_keys out
        × ((k : String)
            → contains (target_keys out) k
              ≡ (contains (target_keys acc) k || contains (snapshot_keys snapshot) k))
  unfolding merged_onto
  merged_onto_sound acc out [] d u h =
      let e : acc ≡ out = ground arith in rw (sym e) (d, u, λ k. ground arith)
  merged_onto_sound acc out (entry ∷ snapshot) d u h =
      let (checked, ce, h') = returned_parts _ _ out h in
      let next = put_entry acc entry.target_key checked in
      let (dist, upd, keys) =
        merged_onto_sound next out snapshot (Distinct-put_entry acc entry.target_key checked d)
          (put-AllUpdates acc entry.target_key checked u
            (checked_entry-IsUpdateOf entry checked ce))
          h' in
      (dist, upd, λ k. ground (arith, keys k, target_keys-put_entry acc entry.target_key k checked))

same_members :
    (xs ys : List String) (k : String)
    → (all_in xs ys && all_in ys xs) ≡ true
    → contains xs k ≡ contains ys k
same_members xs ys k h =
    let left : all_in xs ys ≡ true = ground arith in
    let right : all_in ys xs ≡ true = ground arith in
    elim (Bool-cases (contains xs k)) [
      | inl there ↦ rw there (sym (contains-all_in xs ys k left there))
      | inr absent ↦ elim (Bool-cases (contains ys k)) [
        | inl there ↦ ground (arith, contains-all_in ys xs k right there)
        | inr missing ↦ rw absent (sym missing)
      ]
    ]

no_updates :
    (previous : EvidenceCoverageMap) (valid_keys : List String) → AllUpdates previous valid_keys []
unfolding find_entry
no_updates previous valid_keys k e h = cc

-- If `validated_map` returns a map, then it has the targets of the previous map, each once, the
-- evidence need names one of them, and each entry has the type and the text (stripped) of the
-- previous entry for its target, names only processed evidence as its support, and keeps as retrieved
-- only evidence, by stripped key, that is processed and that the previous entry had.
pub validated_map_sound :
    (previous out : EvidenceCoverageMap) (units : List ProcessedEvidenceUnit)
    (payload : LlmResearchAssessmentAndGapsPayload)
    → validated_map previous units payload ≡ ok out
    → Distinct (target_keys out)
      × ((k : String) → contains (target_keys out) k ≡ contains (target_keys previous) k)
      × (contains (target_keys out) payload.next_evidence_need.coverage_target_key ≡ true)
      × AllUpdates previous (map unit_id units) out
unfolding validated_map
validated_map_sound previous out units payload h =
    let keys = snapshot_keys payload.evidence_coverage_snapshot in
    let expected = target_keys previous in
    let (once, h1) = ensured _ _ _ out h in
    let (both, h2) = ensured _ _ _ out h1 in
    let (needed, h3) = ensured _ _ _ out h2 in
    let (distinct, updates, same) =
      merged_onto_sound previous (map unit_id units) [] out payload.evidence_coverage_snapshot tt
        (no_updates previous (map unit_id units)) h3 in
    let agree : (k : String) → contains (target_keys out) k ≡ contains expected k =
      λ k. same k ∙ same_members keys expected k both in
    (distinct, agree, agree payload.next_evidence_need.coverage_target_key ∙ needed, updates)
