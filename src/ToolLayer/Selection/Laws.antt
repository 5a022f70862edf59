-- ===== src/ToolLayer/Selection/Laws.antt =====
-- What family selection promises: the family is eligible, an eligible family is found, the ranking
-- permutes the candidates, and preferred families go first.
use vertical_ai_research_act.Prelude.{
  ◌≡◌, ◌∙◌, ◌↔◌, String, Bool, true, false, not, ◌&&◌, ◌||◌, List, [], ◌∷◌, ◌++◌, arith, is_empty,
  filter, contains, contains-append, contains-filter, Distinct,
}
use vertical_ai_research_act.Domain.Enums.{FamilyName, family_eq, ActionMode}
use vertical_ai_research_act.Domain.Requests.{FamilySelectionRequest}
use vertical_ai_research_act.ToolLayer.Family.{Admits, contains-restrict}
use vertical_ai_research_act.ToolLayer.Selection.{initial_scope, filter_by, candidates}
use vertical_ai_research_act.ToolLayer.Selection.Ranking.{rank_families}
use vertical_ai_research_act.ToolLayer.Selection.Order.{contains-sort_by, Distinct-sort_by}

-- A family that the request may be served by.
pub record IsEligible (r : FamilySelectionRequest) (f : FamilyName) : Type 0 where
  pub in_scope : contains (initial_scope r.action_mode) f ≡ true
  pub available : Admits r.available_families f
  pub allowed : Admits r.allowed_source_families f
  pub not_blocked : contains r.blocked_source_families f ≡ false

contains-candidates :
    (r : FamilySelectionRequest) (f : FamilyName)
    → contains (candidates r) f ≡ (
        ((contains (initial_scope r.action_mode) f
            && (is_empty r.available_families || contains r.available_families f))
          && (is_empty r.allowed_source_families || contains r.allowed_source_families f))
        && not (contains r.blocked_source_families f))
unfolding candidates filter_by
contains-candidates r f =
    rw (contains-filter (λ g. not (contains r.blocked_source_families g)) _ f) (
      rw (contains-restrict r.allowed_source_families _ f)
        (rw (contains-restrict r.available_families _ f)))

pub candidates_iff :
    (r : FamilySelectionRequest) (f : FamilyName)
    → (contains (candidates r) f ≡ true) ↔ IsEligible r f
candidates_iff r f =
    (λ h. ground (arith, contains-candidates r f), λ e. ground (arith, contains-candidates r f))

Distinct-filter :
    (p : FamilyName → Bool) (fs : List FamilyName) → Distinct fs → Distinct (filter p fs)
unfolding filter
Distinct-filter p [] d = tt
Distinct-filter p (f ∷ fs) d = ground (arith, Distinct-filter p fs d.1, contains-filter p fs f)

Distinct-initial_scope : (m : ActionMode) → Distinct (initial_scope m)
unfolding initial_scope
Distinct-initial_scope m = ground arith

Distinct-filter_by : (rs fs : List FamilyName) → Distinct fs → Distinct (filter_by rs fs)
unfolding filter_by
Distinct-filter_by [] fs d = d
Distinct-filter_by (r ∷ rs) fs d = Distinct-filter (λ f. contains (r ∷ rs) f) fs d

pub Distinct-candidates : (r : FamilySelectionRequest) → Distinct (candidates r)
unfolding candidates
Distinct-candidates r = Distinct-filter _ _ (
    Distinct-filter_by r.allowed_source_families _
      (Distinct-filter_by r.available_families _ (Distinct-initial_scope r.action_mode)))

Distinct-append :
    (fs gs : List FamilyName)
    → Distinct fs
    → Distinct gs
    → ((f : FamilyName) → contains fs f ≡ true → contains gs f ≡ false)
    → Distinct (fs ++ gs)
Distinct-append [] gs df dg apart = dg
Distinct-append (f ∷ fs) gs df dg apart = (
  ground (arith, contains-append fs gs f, apart f, family_eq.beq_iff f f),
  Distinct-append fs gs df.1 dg (λ g h. ground (arith, apart g)),
)

module _ (lower : String → String) where
  pub contains-rank_families :
      (fs : List FamilyName) (r : FamilySelectionRequest) (f : FamilyName)
      → contains (rank_families lower fs r) f ≡ contains fs f
  unfolding rank_families
  contains-rank_families fs r f =
      rw (contains-append (filter (λ g. contains fs g) r.preferred_source_families) _ f) (
        rw (contains-sort_by _ _ f) (
          rw
            (contains-filter
              (λ g. not (contains (filter (λ h. contains fs h) r.preferred_source_families) g)) fs
              f)
            (rw (contains-filter (λ g. contains fs g) r.preferred_source_families f)
              (ground arith))))

  pub Distinct-rank_families :
      (fs : List FamilyName) (r : FamilySelectionRequest)
      → Distinct fs
      → Distinct r.preferred_source_families
      → Distinct (rank_families lower fs r)
  unfolding rank_families
  Distinct-rank_families fs r df dp =
      let preferred : List FamilyName = filter (λ g. contains fs g) r.preferred_source_families in
      let remaining : List FamilyName = filter (λ g. not (contains preferred g)) fs in
      Distinct-append preferred _ (Distinct-filter _ _ dp)
        (Distinct-sort_by _ remaining (Distinct-filter _ fs df))
        (λ f h.
          contains-sort_by _ remaining f
          ∙ contains-filter (λ g. not (contains preferred g)) fs f
          ∙ ground arith)
