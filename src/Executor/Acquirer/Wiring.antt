-- ===== src/Executor/Acquirer/Wiring.antt =====
-- The request to the tool execution layer admits the family that the assessment chose.
use vertical_ai_research_act.Prelude.{
  ◌≡◌, refl, ◌∙◌, Bool, true, false, some, List, [], ◌∷◌, arith, contains, contains-filter,
  if◌then◌else◌,
}
use vertical_ai_research_act.Prelude.Result.{ok, returned_parts, ok_inj}
use vertical_ai_research_act.Domain.Enums.{FamilyName, family_eq}
use vertical_ai_research_act.Domain.Requests.{
  ToolExecutionLayerRequest, FallbackPolicy, fallback_within_same_family,
}
use vertical_ai_research_act.Executor.Enums.{
  ResearchActionMode, refine_from_existing_state, memory_backed_acquisition, external_acquisition,
  is_memory_backed,
}
use vertical_ai_research_act.Executor.Payloads.{is_external_family}
use vertical_ai_research_act.Executor.Assessor.Accepted.{Fits}
use vertical_ai_research_act.Executor.Acquirer.{
  ResearchMaterialAcquireInput, families_for, allowed_source_families, target_problem_of,
  tel_action_mode, tel_evidence_shape, request_of, tool_execution_layer_request,
}

families_for-allows :
    (mode : ResearchActionMode) (available allowed : List FamilyName) (family : FamilyName)
    → Fits mode (some family)
    → contains available family ≡ true
    → families_for mode available ≡ ok allowed
    → contains allowed family ≡ true
unfolding families_for
families_for-allows refine_from_existing_state available allowed family f a h = cc
families_for-allows memory_backed_acquisition available allowed family f a h =
    ok_inj h (λ fs. contains fs family ≡ true) (ground arith)
families_for-allows external_acquisition available allowed family (g, same, external) a h =
    ok_inj h (λ fs. contains fs family ≡ true)
      (contains-filter is_external_family available family ∙ ground arith)

chosen : (test : Bool) (x y : FallbackPolicy) → test ≡ true → (if test then x else y) ≡ x
chosen true x y h = refl
chosen false x y h = cc

-- The request that is made for a family.
pub record IsRequestFor (acquire_input : ResearchMaterialAcquireInput)
    (request : ToolExecutionLayerRequest) : Type 0 where
  pub preferred : request.preferred_source_families ≡ acquire_input.preferred_family ∷ []
  pub allowed : contains request.allowed_source_families acquire_input.preferred_family ≡ true
  pub available : contains request.available_families acquire_input.preferred_family ≡ true
  pub not_blocked : request.blocked_source_families ≡ []
  pub one_retry : request.retry_budget ≡ 1
  pub query : request.provided_query ≡ some acquire_input.retrieval_query
  pub memory_stays :
      is_memory_backed acquire_input.action_mode ≡ true
      → request.fallback_policy ≡ fallback_within_same_family

-- If the family fits the action mode and is available, then a request that is made prefers it, allows
-- it, has it available and blocks none, grants one retry, passes the query on, and with the mode
-- `memory_backed_acquisition` falls back within the family only.
pub tool_execution_layer_request-IsRequestFor :
    (acquire_input : ResearchMaterialAcquireInput) (request : ToolExecutionLayerRequest)
    → Fits acquire_input.action_mode (some acquire_input.preferred_family)
    → contains acquire_input.available_families acquire_input.preferred_family ≡ true
    → tool_execution_layer_request acquire_input ≡ ok request
    → IsRequestFor acquire_input request
unfolding tool_execution_layer_request allowed_source_families request_of
tool_execution_layer_request-IsRequestFor acquire_input request f a h =
    let (families, allowed, h1) =
      returned_parts (allowed_source_families acquire_input) _ request h in
    let (problem, p, h2) = returned_parts (target_problem_of acquire_input) _ request h1 in
    let (mode, m, h3) = returned_parts (tel_action_mode acquire_input.action_mode) _ request h2 in
    let (shape, s, h4) =
      returned_parts (tel_evidence_shape acquire_input.next_evidence_need) _ request h3 in
    ok_inj {a = request_of acquire_input families problem mode shape} h4
      (IsRequestFor acquire_input)
      (record {
        preferred = refl;
        allowed =
            families_for-allows acquire_input.action_mode acquire_input.available_families families
              acquire_input.preferred_family f a allowed;
        available = a;
        not_blocked = refl;
        one_retry = refl;
        query = refl;
        memory_stays = λ memory. chosen (is_memory_backed acquire_input.action_mode) _ _ memory;
      })
