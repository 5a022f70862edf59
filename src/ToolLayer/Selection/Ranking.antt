-- ===== src/ToolLayer/Selection/Ranking.antt =====
-- The ranking of candidate families: scores from the evidence goal, the evidence shape and the
-- context words, and the sort by score, fallback order and name.
use vertical_ai_research_act.Prelude.{
  ℕ, suc, ◌+◌, String, Bool, true, false, not, Option, none, some, List, [], ◌∷◌, ◌++◌, any, filter,
  contains, string_eq, ◌==◌, ltb, if◌then◌else◌,
}
use vertical_ai_research_act.Text.{is_blank, join, occurs_in}
use vertical_ai_research_act.Domain.Enums.{
  FamilyName, research_knowledge_recall, docs_search, paper_search, web_search, family_eq,
  ActionMode, memory_backed_acquisition, external_acquisition, any_acquisition,
}
use vertical_ai_research_act.Domain.Requests.{
  FamilySelectionRequest, EvidenceShape, DesiredEvidenceKind, direct_fact, supporting_evidence,
  disambiguating_evidence, comparison_evidence, status_evidence, FreshnessRequirement,
  normal_freshness, fresh_preferred, fresh_required, EvidenceBreadth, narrow, normal_breadth, broad,
}

-- `scores`: a dictionary from the candidate families to their scores.
abbrev pub Scores : Type 0
Scores = List (FamilyName × ℕ)

-- `{family: 0 for family in families}`
unfoldable pub initial_scores : List FamilyName → Scores
initial_scores [] = []
initial_scores (f ∷ families) = (f, 0) ∷ initial_scores families

-- `_add_score`: a family that is no candidate gets nothing.
unfoldable pub add_score : FamilyName → ℕ → Scores → Scores
add_score family score [] = []
add_score family score ((f, n) ∷ scores) =
    if f == family then (f, n + score) ∷ scores else (f, n) ∷ add_score family score scores

unfoldable pub score_of : Scores → FamilyName → ℕ
score_of [] family = 0
score_of ((f, n) ∷ scores) family = if f == family then n else score_of scores family

abbrev given : Option String → List String → Bool
given none names = false
given (some goal) names = contains names goal

unfoldable pub apply_evidence_goal_scores : Option String → Scores → Scores
unfolding add_score
apply_evidence_goal_scores goal scores0 =
    let scores1 =
      if given goal ("improve_actionability" ∷ "establish_coverage" ∷ [])
      then add_score web_search 10 (add_score docs_search 35 scores0)
      else scores0 in
    let scores2 =
      if given goal ("rebalance_comparison" ∷ "resolve_conflict" ∷ [])
      then add_score docs_search 10 (add_score web_search 20 (add_score paper_search 35 scores1))
      else scores1 in
    let scores3 =
      if given goal ("refresh_status" ∷ [])
      then add_score docs_search 25 (add_score web_search 40 scores2)
      else scores2 in
    let scores4 =
      if given goal ("strengthen_support" ∷ [])
      then add_score web_search 10 (add_score paper_search 15 (add_score docs_search 20 scores3))
      else scores3 in
    if given goal ("resolve_ambiguity" ∷ [])
    then add_score web_search 20 (add_score docs_search 25 scores4)
    else scores4

apply_kind : DesiredEvidenceKind → Scores → Scores
unfolding add_score
apply_kind direct_fact scores = add_score web_search 15 (add_score docs_search 35 scores)
apply_kind status_evidence scores = add_score docs_search 25 (add_score web_search 40 scores)
apply_kind comparison_evidence scores =
    add_score web_search 10 (add_score docs_search 15 (add_score paper_search 35 scores))
apply_kind disambiguating_evidence scores =
    add_score web_search 20 (add_score docs_search 25 scores)
apply_kind supporting_evidence scores =
    add_score web_search 10 (add_score paper_search 15 (add_score docs_search 15 scores))

apply_freshness : FreshnessRequirement → Scores → Scores
unfolding add_score
apply_freshness fresh_required scores = add_score docs_search 25 (add_score web_search 50 scores)
apply_freshness fresh_preferred scores = add_score docs_search 10 (add_score web_search 15 scores)
apply_freshness normal_freshness scores = scores

apply_breadth : EvidenceBreadth → Scores → Scores
unfolding add_score
apply_breadth narrow scores = add_score docs_search 20 scores
apply_breadth broad scores = add_score paper_search 10 (add_score web_search 20 scores)
apply_breadth normal_breadth scores = scores

unfoldable pub apply_evidence_shape_scores : Option EvidenceShape → Scores → Scores
unfolding apply_kind apply_freshness apply_breadth
apply_evidence_shape_scores none scores = scores
apply_evidence_shape_scores (some shape) scores =
    apply_breadth shape.breadth
      (apply_freshness shape.freshness_requirement (apply_kind shape.desired_evidence_kind scores))

-- `[value for value in values if value]`
abbrev present_texts : List (Option String) → List String
present_texts [] = []
present_texts (none ∷ r) = present_texts r
present_texts (some s ∷ r) = let rest = present_texts r in if is_blank s then rest else s ∷ rest

abbrev mentions : String → List String → Bool
mentions text terms = any (λ t. occurs_in t text) terms

-- `_fallback_order`
unfoldable pub fallback_order : ActionMode → List FamilyName
fallback_order memory_backed_acquisition = research_knowledge_recall ∷ []
fallback_order any_acquisition =
    research_knowledge_recall ∷ docs_search ∷ web_search ∷ paper_search ∷ []
fallback_order external_acquisition = docs_search ∷ web_search ∷ paper_search ∷ []

-- `fallback_index.get(family, len(fallback_order))`
unfoldable pub fallback_index : List FamilyName → FamilyName → ℕ
fallback_index [] family = 0
fallback_index (f ∷ order) family = if f == family then 0 else suc (fallback_index order family)

-- The order of the wire values.
abbrev pub name_index : FamilyName → ℕ
name_index docs_search = 0
name_index paper_search = 1
name_index research_knowledge_recall = 2
name_index web_search = 3

-- The sort key `(-scores[family], fallback_index, family)`, compared as a tuple.
unfoldable pub ranks_before : Scores → List FamilyName → FamilyName → FamilyName → Bool
unfolding score_of fallback_index
ranks_before scores order f g =
    if ltb (score_of scores g) (score_of scores f)
    then true
    else if ltb (score_of scores f) (score_of scores g)
    then false
    else if ltb (fallback_index order f) (fallback_index order g)
    then true
    else if ltb (fallback_index order g) (fallback_index order f)
    then false
    else ltb (name_index f) (name_index g)

-- `sorted`, which is stable: an element goes before those that it ranks before.
unfoldable pub insert_by :
    (FamilyName → FamilyName → Bool) → FamilyName → List FamilyName → List FamilyName
insert_by before f [] = f ∷ []
insert_by before f (g ∷ families) =
    if before g f then g ∷ insert_by before f families else f ∷ g ∷ families

unfoldable pub sort_by : (FamilyName → FamilyName → Bool) → List FamilyName → List FamilyName
unfolding insert_by
sort_by before [] = []
sort_by before (f ∷ families) = insert_by before f (sort_by before families)

module _ (lower : String → String) where
  unfoldable pub apply_contextual_scores : Option String → Option String → Scores → Scores
  unfolding add_score occurs_in
  apply_contextual_scores task_framing evidence_strategy scores0 =
      let combined = join " " (present_texts (task_framing ∷ evidence_strategy ∷ [])) in
      let normalized = lower combined in
      let scores1 =
        if mentions normalized ("memory" ∷ "recall" ∷ "reuse" ∷ "existing knowledge" ∷ [])
        then add_score research_knowledge_recall 30 scores0
        else scores0 in
      let scores2 =
        if mentions normalized ("comparison" ∷ "method" ∷ "research" ∷ [])
        then add_score paper_search 15 scores1
        else scores1 in
      let scores3 =
        if mentions normalized ("latest" ∷ "fresh" ∷ "current" ∷ "status" ∷ [])
        then add_score web_search 15 scores2
        else scores2 in
      if is_blank combined then scores0 else scores3

  unfoldable pub family_scores : List FamilyName → FamilySelectionRequest → Scores
  unfolding initial_scores apply_evidence_goal_scores apply_evidence_shape_scores
      apply_contextual_scores
  family_scores families request =
      apply_contextual_scores request.task_framing request.evidence_strategy (
        apply_evidence_shape_scores request.evidence_shape
          (apply_evidence_goal_scores request.evidence_goal (initial_scores families)))

  -- `_rank_families`: the keys of `scores` are the families given.
  unfoldable pub rank_families : List FamilyName → FamilySelectionRequest → List FamilyName
  unfolding family_scores fallback_order ranks_before sort_by filter
  rank_families families request =
      let preferred = filter (λ f. contains families f) request.preferred_source_families in
      let remaining = filter (λ f. not (contains preferred f)) families in
      preferred
      ++ sort_by
          (ranks_before (family_scores families request) (fallback_order request.action_mode))
          remaining
