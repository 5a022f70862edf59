-- ===== src/Tests/Text.antt =====
-- Runs of the text helpers.
use vertical_ai_research_act.Prelude.{◌≡◌, String, List, string_eq, [], ◌∷◌, All, Distinct}
use vertical_ai_research_act.Text.{unique_non_empty_strings}
use vertical_ai_research_act.Text.Laws.{IsNormal, unique_non_empty_strings_lem}

abbrev texts : List String
texts = " a" ∷ "a " ∷ "  " ∷ "b" ∷ []

unique_non_empty_strings_lem_example :
    Distinct (unique_non_empty_strings texts)
    × All IsNormal (unique_non_empty_strings texts)
    × (unique_non_empty_strings (unique_non_empty_strings texts) ≡ unique_non_empty_strings texts)
unique_non_empty_strings_lem_example = unique_non_empty_strings_lem texts
