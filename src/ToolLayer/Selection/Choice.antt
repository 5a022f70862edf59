-- ===== src/ToolLayer/Selection/Choice.antt =====
-- The choice that family selection makes, as its callers see it.
use vertical_ai_research_act.Prelude.{
  ◌≡◌, refl, sym, ◌∙◌, ◌↔◌, String, true, false, some, List, [], ◌∷◌, arith, is_empty, contains,
  Distinct, Bool-cases, inl, inr,
}
use vertical_ai_research_act.Text.{is_blank}
use vertical_ai_research_act.Domain.Enums.{FamilyName, family_eq}
use vertical_ai_research_act.Domain.Requests.{FamilySelectionRequest, selected}
use vertical_ai_research_act.ToolLayer.Family.{
  find_member, not_empty_of_member, normalize_family_list_lem,
}
use vertical_ai_research_act.ToolLayer.Selection.{
  candidates, normalize_request, ranked_result, no_match_result, failed_result, select_normalized,
  select_family,
}
use vertical_ai_research_act.ToolLayer.Selection.Ranking.{rank_families}
use vertical_ai_research_act.ToolLayer.Selection.Laws.{
  IsEligible, candidates_iff, contains-rank_families, Distinct-rank_families, Distinct-candidates,
}

ranked_result-member :
    (n : FamilySelectionRequest) (c ranked : List FamilyName) (f : FamilyName)
    → (ranked_result n c ranked).selected_family ≡ some f
    → contains ranked f ≡ true
unfolding ranked_result
ranked_result-member n c [] f h = cc
ranked_result-member n c (first ∷ rest) f h = ground (arith, family_eq.beq_iff f first)

ranked_result-status :
    (n : FamilySelectionRequest) (c ranked : List FamilyName) (f : FamilyName)
    → contains ranked f ≡ true
    → (ranked_result n c ranked).selection_status ≡ selected
unfolding ranked_result
ranked_result-status n c [] f h = cc
ranked_result-status n c (first ∷ rest) f h = refl

ranked_result-ranked :
    (n : FamilySelectionRequest) (c ranked : List FamilyName) (f : FamilyName)
    → contains ranked f ≡ true
    → (ranked_result n c ranked).ranked_candidate_families ≡ ranked
unfolding ranked_result
ranked_result-ranked n c [] f h = cc
ranked_result-ranked n c (first ∷ rest) f h = refl

Distinct-preferred :
    (request : FamilySelectionRequest)
    → Distinct (normalize_request request).preferred_source_families
unfolding normalize_request
Distinct-preferred request = (normalize_family_list_lem request.preferred_source_families).1

module _ (lower : String → String) where
  select_normalized-IsEligible :
      (n : FamilySelectionRequest) (f : FamilyName)
      → (select_normalized lower n).selected_family ≡ some f
      → IsEligible n f
  unfolding select_normalized failed_result no_match_result
  select_normalized-IsEligible n f h = elim (Bool-cases (is_blank n.target_problem)) [
    | inl blank ↦ absurd (cc (rw blank at h))
    | inr given ↦ elim (Bool-cases (is_empty (candidates n))) [
      | inl gone ↦ absurd (cc (rw (given, gone) at h))
      | inr there ↦ (candidates_iff n f).0 (
          sym (contains-rank_families lower (candidates n) n f)
          ∙ ranked_result-member n (candidates n) (rank_families lower (candidates n) n) f
              (rw (given, there) at h))
    ]
  ]

  pub select_normalized-found :
      (n : FamilySelectionRequest) (f : FamilyName)
      → is_blank n.target_problem ≡ false
      → IsEligible n f
      → select_normalized lower n
        ≡ ranked_result n (candidates n) (rank_families lower (candidates n) n)
  unfolding select_normalized
  select_normalized-found n f given e =
      rw (given, not_empty_of_member (candidates n) f ((candidates_iff n f).1 e))

  select_normalized-selected :
      (n : FamilySelectionRequest)
      → (select_normalized lower n).selection_status ≡ selected
      → (is_blank n.target_problem ≡ false) × (f : FamilyName) × IsEligible n f
  unfolding select_normalized failed_result no_match_result
  select_normalized-selected n h = elim (Bool-cases (is_blank n.target_problem)) [
    | inl blank ↦ absurd (cc (rw blank at h))
    | inr given ↦ elim (Bool-cases (is_empty (candidates n))) [
      | inl gone ↦ absurd (cc (rw (given, gone) at h))
      | inr there ↦
          let (f, m) = find_member (candidates n) there in (given, f, (candidates_iff n f).0 m)
    ]
  ]

  -- The family that is selected is in the scope of the action mode, available, allowed and not
  -- blocked.
  pub select_family-IsEligible :
      (request : FamilySelectionRequest) (f : FamilyName)
      → (select_family lower request).selected_family ≡ some f
      → IsEligible (normalize_request request) f
  unfolding select_family
  select_family-IsEligible request f h =
      select_normalized-IsEligible (normalize_request request) f h

  -- A family is selected exactly if the stripped problem is not empty and some family is in the scope
  -- of the action mode, available, allowed and not blocked.
  pub select_family-selects_iff :
      (request : FamilySelectionRequest)
      → ((select_family lower request).selection_status ≡ selected) ↔ (
          (is_blank (normalize_request request).target_problem ≡ false)
          × (f : FamilyName) × IsEligible (normalize_request request) f)
  unfolding select_family
  select_family-selects_iff request =
      let n = normalize_request request in
      (
        select_normalized-selected n,
        λ (given, f, e). rw (select_normalized-found n f given e) (
            ranked_result-status n (candidates n) (rank_families lower (candidates n) n) f
              (contains-rank_families lower (candidates n) n f ∙ (candidates_iff n f).1 e)),
      )

  ranking :
      (n : FamilySelectionRequest) (f : FamilyName)
      → is_blank n.target_problem ≡ false
      → IsEligible n f
      → (select_normalized lower n).ranked_candidate_families ≡ rank_families lower (candidates n) n
  ranking n f given e = rw (select_normalized-found n f given e) (
      ranked_result-ranked n (candidates n) (rank_families lower (candidates n) n) f
        (contains-rank_families lower (candidates n) n f ∙ (candidates_iff n f).1 e))

  -- If a family is selected, the ranking lists exactly the eligible families, each once.
  pub select_family-ranking :
      (request : FamilySelectionRequest)
      → (select_family lower request).selection_status ≡ selected
      → Distinct (select_family lower request).ranked_candidate_families
        × ((f : FamilyName)
            → (contains (select_family lower request).ranked_candidate_families f ≡ true)
              ↔ IsEligible (normalize_request request) f)
  unfolding select_family
  select_family-ranking request h =
      let n = normalize_request request in
      let (given, f, e) = select_normalized-selected n h in
      rw (ranking n f given e) (
        Distinct-rank_families lower (candidates n) n (Distinct-candidates n)
            (Distinct-preferred request),
        λ g. (
          λ m. (candidates_iff n g).0 (sym (contains-rank_families lower (candidates n) n g) ∙ m),
          λ o. contains-rank_families lower (candidates n) n g ∙ (candidates_iff n g).1 o,
        ),
      )
