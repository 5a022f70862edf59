-- ===== src/Tests/Selection.antt =====
-- Runs of the family selection.
use vertical_ai_research_act.Prelude.{
  ◌≡◌, ◌↔◌, ◌≤◌, refl, inl, inr, String, true, false, some, [], ◌∷◌, contains, Distinct,
}
use vertical_ai_research_act.Text.{is_blank}
use vertical_ai_research_act.Domain.Enums.{
  FamilyName, docs_search, paper_search, web_search, family_eq,
}
use vertical_ai_research_act.Domain.Requests.{FamilySelectionRequest, selected}
use vertical_ai_research_act.ToolLayer.Family.{normalize_family_list, normalize_family_list_lem}
use vertical_ai_research_act.ToolLayer.Selection.{
  candidates, initial_scope, normalize_request, select_family,
}
use vertical_ai_research_act.ToolLayer.Selection.Ranking.{score_of, family_scores}
use vertical_ai_research_act.ToolLayer.Selection.Laws.{IsEligible}
use vertical_ai_research_act.ToolLayer.Selection.Choice.{
  select_family-IsEligible, select_family-selects_iff, select_family-ranking,
}
use vertical_ai_research_act.ToolLayer.Selection.Priority.{
  select_family-prefers, select_family-best,
}
use vertical_ai_research_act.Tests.Data.{selection_request}

abbrev lower : String → String
lower s = s

web_search-IsEligible : IsEligible (normalize_request selection_request) web_search
unfolding normalize_request initial_scope
web_search-IsEligible = record {
  in_scope = refl;
  available = inr refl;
  allowed = inl refl;
  not_blocked = refl;
}

select_family-IsEligible_example : IsEligible (normalize_request selection_request) web_search
unfolding select_family
select_family-IsEligible_example = select_family-IsEligible lower selection_request web_search refl

select_family-selects_iff_example :
    ((select_family lower selection_request).selection_status ≡ selected) ↔ (
      (is_blank (normalize_request selection_request).target_problem ≡ false)
      × (f : FamilyName) × IsEligible (normalize_request selection_request) f)
select_family-selects_iff_example = select_family-selects_iff lower selection_request

select_family-ranking_example :
    Distinct (select_family lower selection_request).ranked_candidate_families
    × ((f : FamilyName)
        → (contains (select_family lower selection_request).ranked_candidate_families f ≡ true)
          ↔ IsEligible (normalize_request selection_request) f)
unfolding select_family
select_family-ranking_example = select_family-ranking lower selection_request refl

paper_search-Blocked :
    (g : FamilyName)
    → contains (paper_search ∷ []) g ≡ true
    → ¬ IsEligible (normalize_request selection_request) g
unfolding normalize_request
paper_search-Blocked paper_search h e = let k = e.not_blocked in cc
paper_search-Blocked _ h e = cc

select_family-prefers_example :
    (select_family lower selection_request).selected_family ≡ some web_search
unfolding normalize_request
select_family-prefers_example =
    select_family-prefers lower selection_request (paper_search ∷ []) web_search [] refl
      paper_search-Blocked refl web_search-IsEligible

-- The same request without preferences.
abbrev plain_request : FamilySelectionRequest
plain_request = record selection_request { preferred_source_families = [] }

docs_search-IsEligible : IsEligible (normalize_request plain_request) docs_search
unfolding normalize_request initial_scope
docs_search-IsEligible = record {
  in_scope = refl;
  available = inr refl;
  allowed = inl refl;
  not_blocked = refl;
}

select_family-best_example :
    score_of
      (family_scores lower
        (candidates (normalize_request plain_request))
        (normalize_request plain_request))
      docs_search
    ≤ score_of
        (family_scores lower
          (candidates (normalize_request plain_request))
          (normalize_request plain_request))
        docs_search
unfolding select_family normalize_request
select_family-best_example =
    select_family-best lower plain_request docs_search docs_search (λ p h. cc) refl refl
      docs_search-IsEligible

normalize_family_list_lem_example :
    ((f : FamilyName)
      → contains (normalize_family_list (web_search ∷ docs_search ∷ web_search ∷ [])) f
        ≡ contains (web_search ∷ docs_search ∷ web_search ∷ []) f)
    × Distinct (normalize_family_list (web_search ∷ docs_search ∷ web_search ∷ []))
    × (normalize_family_list (normalize_family_list (web_search ∷ docs_search ∷ web_search ∷ []))
        ≡ normalize_family_list (web_search ∷ docs_search ∷ web_search ∷ []))
normalize_family_list_lem_example =
    normalize_family_list_lem (web_search ∷ docs_search ∷ web_search ∷ [])
