-- ===== src/ToolLayer/Selection/Priority.antt =====
-- Which eligible family is chosen: the first preferred one, or else one of the best score.
use vertical_ai_research_act.Prelude.{
  ◌≤◌, ◌≡◌, refl, ◌∙◌, ap, String, Bool, true, false, not, some, List, [], ◌∷◌, ◌++◌, arith, filter,
  contains, Bool-cases, inl, inr, ◌==◌, ==-refl,
}
use vertical_ai_research_act.Text.{is_blank}
use vertical_ai_research_act.Domain.Enums.{FamilyName, family_eq}
use vertical_ai_research_act.Domain.Requests.{FamilySelectionRequest}
use vertical_ai_research_act.ToolLayer.Selection.{
  candidates, normalize_request, ranked_result, select_family,
}
use vertical_ai_research_act.ToolLayer.Selection.Ranking.{
  Scores, score_of, rank_families, family_scores, fallback_order, ranks_before, sort_by,
}
use vertical_ai_research_act.ToolLayer.Selection.Order.{
  contains-sort_by, IsRanked, sort_by-IsRanked, ranks_before_asym,
}
use vertical_ai_research_act.ToolLayer.Selection.Laws.{IsEligible, candidates_iff}
use vertical_ai_research_act.ToolLayer.Selection.Choice.{select_normalized-found}

-- Of members that all fail the test nothing is left.
filter_none :
    (p : FamilyName → Bool) (fs : List FamilyName)
    → ((g : FamilyName) → contains fs g ≡ true → p g ≡ false)
    → filter p fs ≡ []
unfolding filter
filter_none p [] h = refl
filter_none p (f ∷ fs) h = rw (h f (rw (==-refl f))) (filter_none p fs (λ g m. h g (ground arith)))

filter_all :
    (p : FamilyName → Bool) (fs : List FamilyName)
    → ((g : FamilyName) → p g ≡ true)
    → filter p fs ≡ fs
unfolding filter
filter_all p [] h = refl
filter_all p (f ∷ fs) h = rw (h f) (ap (λ r. f ∷ r) (filter_all p fs h))

filter_first :
    (p : FamilyName → Bool) (earlier : List FamilyName) (f : FamilyName) (later : List FamilyName)
    → ((g : FamilyName) → contains earlier g ≡ true → p g ≡ false)
    → p f ≡ true
    → filter p (earlier ++ f ∷ later) ≡ f ∷ filter p later
unfolding filter
filter_first p [] f later h pf = rw pf
filter_first p (e ∷ earlier) f later h pf =
    rw (h e (rw (==-refl e))) (filter_first p earlier f later (λ g m. h g (ground arith)) pf)

not_true : (b : Bool) → ¬ (b ≡ true) → b ≡ false
not_true true h = absurd (h refl)
not_true false h = refl

-- The head of a ranked list has the best score.
head_best :
    (scores : Scores) (order : List FamilyName) (f : FamilyName) (fs : List FamilyName)
    (g : FamilyName)
    → IsRanked (ranks_before scores order) (f ∷ fs)
    → contains (f ∷ fs) g ≡ true
    → score_of scores g ≤ score_of scores f
unfolding ranks_before
head_best scores order f [] g r m = ground (arith, family_eq.beq_iff g f)
head_best scores order f (h ∷ fs) g r m = elim (Bool-cases (g == f)) [
  | inl same ↦ rw ((family_eq.beq_iff g f).0 same) (omega arith)
  | inr other ↦ ground (arith, head_best scores order h fs g r.1 (ground arith), r.0)
]

ranked_head :
    (n : FamilySelectionRequest) (c ranked : List FamilyName) (f g : FamilyName) (scores : Scores)
    (order : List FamilyName)
    → IsRanked (ranks_before scores order) ranked
    → (ranked_result n c ranked).selected_family ≡ some f
    → contains ranked g ≡ true
    → score_of scores g ≤ score_of scores f
unfolding ranked_result
ranked_head n c [] f g scores order r h m = cc
ranked_head n c (first ∷ rest) f g scores order r h m =
    let e : first ≡ f = cc in rw (← e) (head_best scores order first rest g r m)

module _ (lower : String → String) where
  -- If the problem is stated, the first family of the preferred list that is eligible is the one
  -- selected.
  pub select_family-prefers :
      (request : FamilySelectionRequest) (earlier : List FamilyName) (f : FamilyName)
      (later : List FamilyName)
      → (normalize_request request).preferred_source_families ≡ earlier ++ f ∷ later
      → ((g : FamilyName) → contains earlier g ≡ true → ¬ IsEligible (normalize_request request) g)
      → is_blank (normalize_request request).target_problem ≡ false
      → IsEligible (normalize_request request) f
      → (select_family lower request).selected_family ≡ some f
  unfolding select_family rank_families ranked_result
  select_family-prefers request earlier f later split none_earlier given e =
      let n = normalize_request request in
      rw (select_normalized-found lower n f given e) (
        rw split (
          rw (
            filter_first (λ g. contains (candidates n) g) earlier f later
              (λ g m. not_true _ (λ c. none_earlier g m ((candidates_iff n g).0 c)))
              ((candidates_iff n f).1 e))))

  -- With no preferred candidate the ranking is the sorted list of the candidates.
  rank_families-plain :
      (n : FamilySelectionRequest)
      → ((p : FamilyName)
          → contains n.preferred_source_families p ≡ true
          → contains (candidates n) p ≡ false)
      → rank_families lower (candidates n) n
        ≡ sort_by
            (ranks_before (family_scores lower (candidates n) n) (fallback_order n.action_mode))
            (candidates n)
  unfolding rank_families
  rank_families-plain n apart =
      rw (filter_none (λ g. contains (candidates n) g) n.preferred_source_families apart)
        (rw (filter_all (λ g. not (contains [] g)) (candidates n) (λ g. refl)))

  best_of :
      (n : FamilySelectionRequest) (f g : FamilyName)
      → (ranked_result n (candidates n) (rank_families lower (candidates n) n)).selected_family
        ≡ some f
      → ((p : FamilyName)
          → contains n.preferred_source_families p ≡ true
          → contains (candidates n) p ≡ false)
      → contains (candidates n) g ≡ true
      → score_of (family_scores lower (candidates n) n) g
        ≤ score_of (family_scores lower (candidates n) n) f
  best_of n f g h apart m =
      let scores = family_scores lower (candidates n) n in
      let order = fallback_order n.action_mode in
      ranked_head n (candidates n) (sort_by (ranks_before scores order) (candidates n)) f g scores
        order
        (sort_by-IsRanked (ranks_before scores order) (ranks_before_asym scores order)
          (candidates n))
        (rw (rank_families-plain n apart) at h)
        (contains-sort_by (ranks_before scores order) (candidates n) g ∙ m)

  -- If the problem is stated and no preferred family is eligible, no eligible family has a better score
  -- than the one selected.
  pub select_family-best :
      (request : FamilySelectionRequest) (f g : FamilyName)
      → ((p : FamilyName)
          → contains (normalize_request request).preferred_source_families p ≡ true
          → ¬ IsEligible (normalize_request request) p)
      → is_blank (normalize_request request).target_problem ≡ false
      → (select_family lower request).selected_family ≡ some f
      → IsEligible (normalize_request request) g
      → score_of
          (family_scores lower (candidates (normalize_request request)) (normalize_request request))
          g
        ≤ score_of
            (family_scores lower
              (candidates (normalize_request request))
              (normalize_request request))
            f
  unfolding select_family
  select_family-best request f g none_preferred given chosen e =
      let n = normalize_request request in
      best_of n f g (rw (select_normalized-found lower n g given e) at chosen)
        (λ p m. not_true _ (λ c. none_preferred p m ((candidates_iff n p).0 c)))
        ((candidates_iff n g).1 e)
