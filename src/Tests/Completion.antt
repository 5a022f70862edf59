-- ===== src/Tests/Completion.antt =====
-- Runs of the completion evaluation.
use vertical_ai_research_act.Prelude.{◌≡◌, ◌↔◌, refl, true, arith}
use vertical_ai_research_act.Domain.Enums.{FamilyName}
use vertical_ai_research_act.Domain.Requests.{evaluated, fallback_to_broader_search}
use vertical_ai_research_act.ToolLayer.Service.Families.{failed_family_result}
use vertical_ai_research_act.ToolLayer.Completion.{evaluate}
use vertical_ai_research_act.ToolLayer.Completion.Verdict.{
  normalize_request, same_family_fallback_available, cross_family_fallback_available,
  is_timeout_exhausted,
}
use vertical_ai_research_act.ToolLayer.Completion.Laws.{IsSound}
use vertical_ai_research_act.ToolLayer.Completion.Soundness.{
  IsValidRequest, IsOpen, evaluate-accepts_iff, evaluate-IsSound, cross_family_fallback_iff,
}
use vertical_ai_research_act.Tests.Data.{evaluation_request}

evaluation_request-IsValidRequest : IsValidRequest (normalize_request evaluation_request)
unfolding normalize_request failed_family_result
evaluation_request-IsValidRequest = record {
  problem_given = refl;
  budget_bounded = omega arith;
  count_bounded = omega arith;
  results_bounded = tt;
  timeout_bounded = tt;
  elapsed_bounded = tt;
  family_agrees = refl;
}

evaluate-accepts_iff_example :
    ((evaluate evaluation_request).evaluation_status ≡ evaluated)
    ↔ IsValidRequest (normalize_request evaluation_request)
evaluate-accepts_iff_example = evaluate-accepts_iff evaluation_request

evaluate-IsSound_example :
    IsSound
      (normalize_request evaluation_request)
      (is_timeout_exhausted (normalize_request evaluation_request))
      (same_family_fallback_available (normalize_request evaluation_request))
      (cross_family_fallback_available (normalize_request evaluation_request))
      (evaluate evaluation_request)
evaluate-IsSound_example = evaluate-IsSound evaluation_request evaluation_request-IsValidRequest

cross_family_fallback_iff_example : (cross_family_fallback_available evaluation_request ≡ true) ↔ (
    (evaluation_request.fallback_policy ≡ fallback_to_broader_search)
    × (f : FamilyName) × IsOpen evaluation_request f)
cross_family_fallback_iff_example = cross_family_fallback_iff evaluation_request
