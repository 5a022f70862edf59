-- ===== src/ToolLayer/Family.antt =====
-- Normalisation of family lists (app/services/tool_execution_layer/_normalization.py).
use vertical_ai_research_act.Prelude.{
  ◌≡◌, refl, ◌⊎◌, true, false, ◌&&◌, ◌||◌, List, [], ◌∷◌, arith, is_empty, filter, contains,
  contains-filter, contains-dedupe, ==-refl, dedupe, if◌then◌else◌, Distinct,
}
use vertical_ai_research_act.Prelude.Dedupe.{Distinct-dedupe, dedupe-dedupe}
use vertical_ai_research_act.Domain.Enums.{FamilyName, family_eq}

-- `normalize_family_list`: the values are members of the enumeration already, so that
-- `FamilyName(str(family).strip())` is `family`.
unfoldable pub normalize_family_list : List FamilyName → List FamilyName
unfolding dedupe
normalize_family_list families = dedupe families

-- A list is not empty exactly if it has a member.
pub find_member :
    (fs : List FamilyName) → is_empty fs ≡ false → (f : FamilyName) × (contains fs f ≡ true)
find_member [] h = cc
find_member (f ∷ fs) h = (f, rw (==-refl f))

pub not_empty_of_member :
    (fs : List FamilyName) (f : FamilyName) → contains fs f ≡ true → is_empty fs ≡ false
not_empty_of_member [] f h = cc
not_empty_of_member (g ∷ fs) f h = refl

-- The list is empty, which allows every family, or it holds the family.
abbrev pub Admits : List FamilyName → FamilyName → Type 0
Admits fs f = (is_empty fs ≡ true) ⊎ (contains fs f ≡ true)

pub contains-restrict :
    (allowed fs : List FamilyName) (f : FamilyName)
    → contains (if is_empty allowed then fs else filter (λ g. contains allowed g) fs) f
      ≡ (contains fs f && (is_empty allowed || contains allowed f))
contains-restrict [] fs f = ground arith
contains-restrict (a ∷ allowed) fs f = contains-filter (λ g. contains (a ∷ allowed) g) fs f

-- Normalisation keeps the members, leaves no family twice, and is idempotent.
pub normalize_family_list_lem :
    (fs : List FamilyName)
    → ((f : FamilyName) → contains (normalize_family_list fs) f ≡ contains fs f)
      × Distinct (normalize_family_list fs)
      × (normalize_family_list (normalize_family_list fs) ≡ normalize_family_list fs)
unfolding normalize_family_list
normalize_family_list_lem fs = (contains-dedupe fs, Distinct-dedupe fs, dedupe-dedupe fs)
