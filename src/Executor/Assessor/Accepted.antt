-- ===== src/Executor/Assessor/Accepted.antt =====
-- What an accepted assessment guarantees to the steps behind it.
use vertical_ai_research_act.Prelude.{
  ◌≡◌, refl, sym, String, true, false, Option, none, some, map, arith, contains, Distinct,
  string_eq, Bool-cases, Option-cases, inl, inr,
}
use vertical_ai_research_act.Prelude.Result.{Result, ok, raised, returned_parts, ok_inj}
use vertical_ai_research_act.Text.{strip_or_none, normalize_whitespace_or_none}
use vertical_ai_research_act.Domain.Enums.{FamilyName, family_eq, research_knowledge_recall}
use vertical_ai_research_act.Executor.Enums.{
  ResearchActionMode, refine_from_existing_state, memory_backed_acquisition, external_acquisition,
  is_refine,
}
use vertical_ai_research_act.Executor.Payloads.{
  LlmResearchAssessmentAndGapsPayload, check_action_contract, validate_action_contract,
  is_external_family,
}
use vertical_ai_research_act.Executor.State.{target_keys}
use vertical_ai_research_act.Executor.Collaborators.{ResearchStateAssessorInput}
use vertical_ai_research_act.Executor.Coverage.{unit_id}
use vertical_ai_research_act.Executor.Coverage.Snapshot.{AllUpdates, validated_map_sound}
use vertical_ai_research_act.Executor.Assessor.{
  ResearchStateAssessorOutput, parsed, is_available, validate_action_decision, accept,
}

-- The family fits the mode: recall for memory, another one for an external acquisition.
abbrev pub Fits : ResearchActionMode → Option FamilyName → Type 0
Fits refine_from_existing_state family = family ≡ none
Fits memory_backed_acquisition family = family ≡ some research_knowledge_recall
Fits external_acquisition family =
    (f : FamilyName) × (family ≡ some f) × (is_external_family f ≡ true)

check_action_contract-Fits :
    (mode : ResearchActionMode) (family : Option FamilyName) (query : Option String)
    → check_action_contract mode family query ≡ ok tt
    → Fits mode family
check_action_contract-Fits refine_from_existing_state none none h = refl
check_action_contract-Fits refine_from_existing_state none (some q) h = cc
check_action_contract-Fits refine_from_existing_state (some f) none h = cc
check_action_contract-Fits refine_from_existing_state (some f) (some q) h = cc
check_action_contract-Fits memory_backed_acquisition none none h = cc
check_action_contract-Fits memory_backed_acquisition (some f) none h = ground arith
check_action_contract-Fits memory_backed_acquisition none (some q) h = cc
check_action_contract-Fits memory_backed_acquisition (some f) (some q) h = ground arith
check_action_contract-Fits external_acquisition none none h = cc
check_action_contract-Fits external_acquisition (some f) none h = cc
check_action_contract-Fits external_acquisition none (some q) h = cc
check_action_contract-Fits external_acquisition (some f) (some q) h = (f, refl, ground arith)

parsed-ok :
    (r : Result LlmResearchAssessmentAndGapsPayload) (payload : LlmResearchAssessmentAndGapsPayload)
    → parsed r ≡ ok payload
    → r ≡ ok payload
parsed-ok (ok p) payload h = h
parsed-ok (raised e) payload h = cc

contract_kept :
    (answer payload : LlmResearchAssessmentAndGapsPayload)
    → parsed (validate_action_contract answer) ≡ ok payload
    → Fits payload.action_mode payload.preferred_family
unfolding validate_action_contract
contract_kept answer payload h =
    let (checked, c, h') =
      returned_parts
        (check_action_contract answer.action_mode answer.preferred_family
          (strip_or_none answer.retrieval_query))
        (λ u. ok (record answer { retrieval_query = strip_or_none answer.retrieval_query })) payload
        (parsed-ok _ payload h) in
    let e : record answer { retrieval_query = strip_or_none answer.retrieval_query } ≡ payload =
      ground arith in
    rw (sym e) (check_action_contract-Fits answer.action_mode answer.preferred_family _ c)

-- The decision keeps the mode and the family, which is available, and a query is given for it.
record IsCarriedOut (assessor_input : ResearchStateAssessorInput)
    (payload decided : LlmResearchAssessmentAndGapsPayload) : Type 0 where
  mode : decided.action_mode ≡ payload.action_mode
  family : decided.preferred_family ≡ payload.preferred_family
  need : decided.next_evidence_need ≡ payload.next_evidence_need
  available :
      is_refine decided.action_mode ≡ false
      → is_available decided.preferred_family assessor_input.available_families ≡ true
  query :
      is_refine decided.action_mode ≡ false
      → (text : String) × (decided.retrieval_query ≡ some text)

validate_action_decision-IsCarriedOut :
    (assessor_input : ResearchStateAssessorInput)
    (payload decided : LlmResearchAssessmentAndGapsPayload)
    → validate_action_decision assessor_input payload ≡ ok decided
    → IsCarriedOut assessor_input payload decided
unfolding validate_action_decision
validate_action_decision-IsCarriedOut assessor_input payload decided h =
    elim (Bool-cases (is_refine payload.action_mode)) [
      | inl refines ↦
          let e : payload ≡ decided = ground arith in
          rw (sym e) (record {
            mode = refl;
            family = refl;
            need = refl;
            available = λ r. cc;
            query = λ r. cc;
          })
      | inr acquires ↦
          elim (Bool-cases
            (is_available payload.preferred_family assessor_input.available_families)) [
              | inr gone ↦ ground arith
              | inl there ↦
                  elim (Option-cases (normalize_whitespace_or_none payload.retrieval_query)) [
                    | inl blank ↦ absurd (ground arith)
                    | inr (text, given) ↦
                        let e : record payload { retrieval_query = some text } ≡ decided =
                          ground arith in
                        rw (sym e) (record {
                          mode = refl;
                          family = refl;
                          need = refl;
                          available = λ r. there;
                          query = λ r. (text, refl);
                        })
                  ]
            ]
    ]

-- What holds of the output for an assessor's input.
pub record IsAccepted (assessor_input : ResearchStateAssessorInput)
    (output : ResearchStateAssessorOutput) : Type 0 where
  pub once : Distinct (target_keys output.evidence_coverage_map)
  pub same_targets :
      (k : String)
      → contains (target_keys output.evidence_coverage_map) k
        ≡ contains (target_keys assessor_input.evidence_coverage_map) k
  pub known_target :
      contains
        (target_keys output.evidence_coverage_map)
        output.next_evidence_need.coverage_target_key
      ≡ true
  pub updates :
      AllUpdates assessor_input.evidence_coverage_map
        (map unit_id assessor_input.processed_evidence_units)
        output.evidence_coverage_map
  pub fits : Fits output.action_mode output.preferred_family
  pub available :
      is_refine output.action_mode ≡ false
      → is_available output.preferred_family assessor_input.available_families ≡ true
  pub query :
      is_refine output.action_mode ≡ false → (text : String) × (output.retrieval_query ≡ some text)

-- If the language model's answer is accepted, then the coverage map of the output has the old
-- targets, each once, with the old types and texts, with processed evidence as support and only
-- processed evidence of the old entry as retrieved (by stripped key); the evidence need names a
-- target; the family fits the mode; and unless the mode is to refine, there is a query and the family is available.
pub accept-IsAccepted :
    (assessor_input : ResearchStateAssessorInput) (answer : LlmResearchAssessmentAndGapsPayload)
    (output : ResearchStateAssessorOutput)
    → accept assessor_input answer ≡ ok output
    → IsAccepted assessor_input output
unfolding accept
accept-IsAccepted assessor_input answer output h =
    let (payload, p, h1) = returned_parts _ _ output h in
    let (coverage, c, h2) = returned_parts _ _ output h1 in
    let (decided, d, h3) = returned_parts _ _ output h2 in
    let fit = contract_kept answer payload p in
    let carried = validate_action_decision-IsCarriedOut assessor_input payload decided d in
    let (once, same, known, updates) =
      validated_map_sound assessor_input.evidence_coverage_map coverage
        assessor_input.processed_evidence_units payload c in
    ok_inj h3 (λ o. IsAccepted assessor_input o)
      (record {
        once = once;
        same_targets = same;
        known_target = rw carried.need known;
        updates = updates;
        fits = rw (carried.mode, carried.family) fit;
        available = carried.available;
        query = carried.query;
      })
