-- ===== src/ToolLayer/Selection/Order.antt =====
-- The sort of the ranking: it permutes its input, and puts no family after a worse one.
use vertical_ai_research_act.Prelude.{
  ◌≡◌, refl, inl, inr, Bool, true, false, ◌||◌, List, [], ◌∷◌, arith, contains, Distinct, ◌==◌,
  Bool-cases,
}
use vertical_ai_research_act.Domain.Enums.{FamilyName, family_eq}
use vertical_ai_research_act.ToolLayer.Selection.Ranking.{Scores, ranks_before, insert_by, sort_by}

module _ (before : FamilyName → FamilyName → Bool) where
  contains-insert_by :
      (f : FamilyName) (families : List FamilyName) (x : FamilyName)
      → contains (insert_by before f families) x ≡ (x == f || contains families x)
  unfolding insert_by
  contains-insert_by f [] x = refl
  contains-insert_by f (g ∷ families) x = ground (arith, contains-insert_by f families x)

  pub contains-sort_by :
      (families : List FamilyName) (x : FamilyName)
      → contains (sort_by before families) x ≡ contains families x
  unfolding sort_by
  contains-sort_by [] x = refl
  contains-sort_by (f ∷ families) x =
      ground (arith, contains-insert_by f (sort_by before families) x, contains-sort_by families x)

  Distinct-insert_by :
      (f : FamilyName) (families : List FamilyName)
      → contains families f ≡ false
      → Distinct families
      → Distinct (insert_by before f families)
  unfolding insert_by
  Distinct-insert_by f [] h d = (refl, tt)
  Distinct-insert_by f (g ∷ families) h d = elim (Bool-cases (before g f)) [
    | inl past ↦ rw past (
      ground (arith, contains-insert_by f families g, family_eq.beq_iff g f, family_eq.beq_iff f g),
      Distinct-insert_by f families (ground arith) d.1,
    )
    | inr here ↦ rw here (h, d)
  ]

  pub Distinct-sort_by :
      (families : List FamilyName) → Distinct families → Distinct (sort_by before families)
  unfolding sort_by
  Distinct-sort_by [] d = tt
  Distinct-sort_by (f ∷ families) d =
      Distinct-insert_by f (sort_by before families) (ground (arith, contains-sort_by families f))
        (Distinct-sort_by families d.1)

  -- No neighbour ranks before the one in front of it.
  abbrev pub IsRanked : List FamilyName → Type 0
  IsRanked [] = Unit
  IsRanked (f ∷ []) = Unit
  IsRanked (f ∷ (g ∷ families)) = (before g f ≡ false) × IsRanked (g ∷ families)

  module _ (asym : (f g : FamilyName) → before f g ≡ true → before g f ≡ false) where
    insert_by-IsRanked :
        (f : FamilyName) (families : List FamilyName)
        → IsRanked families
        → IsRanked (insert_by before f families)
    unfolding insert_by
    insert_by-IsRanked f [] r = tt
    insert_by-IsRanked f (g ∷ []) r = ground (arith, asym g f)
    insert_by-IsRanked f (g ∷ (h ∷ families)) r =
        let ih : IsRanked (insert_by before f (h ∷ families)) =
          insert_by-IsRanked f (h ∷ families) r.1 in
        elim (Bool-cases (before g f)) [
          | inr here ↦ rw here (here, r)
          | inl past ↦ rw past (elim (Bool-cases (before h f)) [
            | inl on ↦ rw on (r.0, rw on at ih)
            | inr stop ↦ rw stop (asym g f past, (stop, r.1))
          ])
        ]

    pub sort_by-IsRanked : (families : List FamilyName) → IsRanked (sort_by before families)
    unfolding sort_by
    sort_by-IsRanked [] = tt
    sort_by-IsRanked (f ∷ families) =
        insert_by-IsRanked f (sort_by before families) (sort_by-IsRanked families)

pub ranks_before_asym :
    (scores : Scores) (order : List FamilyName) (f g : FamilyName)
    → ranks_before scores order f g ≡ true
    → ranks_before scores order g f ≡ false
unfolding ranks_before
ranks_before_asym scores order f g h = ground arith
