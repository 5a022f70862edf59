-- ===== src/Domain/Retrieval/Pydantic.antt =====
-- How pydantic reads the values of a legacy mapping into typed fields. pydantic itself is not
-- part of the repository: what it makes of a value that is no `int` where an `int` is declared
-- is a parameter.
use package.vertical_ai_research_act.Prelude.{ℕ, String, Bool, Option, none, some, List, [], ◌∷◌}
use package.vertical_ai_research_act.Prelude.Int.{ℤ, pos, negsuc}
use package.vertical_ai_research_act.Domain.Enums.{
  FamilyName, family_of, AcquisitionStatus, acquisition_of,
}
use package.vertical_ai_research_act.Domain.Value.{
  Value, null, bool, int, str, list, dict, Items, nil, item, Dict, empty,
}

pub record Pydantic : Type 0 where
  pub lax_int : Value → Option ℤ
  pub lax_bool : Value → Option Bool

-- `int` with `ge=0`
abbrev not_negative : Option ℤ → Option ℕ
not_negative (some (pos n)) = some n
not_negative _ = none

abbrev pub read_count : Pydantic → Value → Option ℕ
read_count p (int (pos n)) = some n
read_count p (int (negsuc n)) = none
read_count p v = not_negative (p.lax_int v)

-- `int | None` with `ge=0`
abbrev pub read_count_or_none : Pydantic → Value → Option (Option ℕ)
read_count_or_none p null = some none
read_count_or_none p v = elim (read_count p v) [ none ↦ none | some n ↦ some (some n) ]

abbrev pub read_bool : Pydantic → Value → Option Bool
read_bool p (bool b) = some b
read_bool p v = p.lax_bool v

-- `str | None`
abbrev pub read_text_or_none : Value → Option (Option String)
read_text_or_none null = some none
read_text_or_none (str s) = some (some s)
read_text_or_none _ = none

abbrev pub read_family_or_none : Value → Option (Option FamilyName)
read_family_or_none null = some none
read_family_or_none (str s) = elim (family_of s) [ none ↦ none | some f ↦ some (some f) ]
read_family_or_none _ = none

abbrev pub read_acquisition_or_none : Value → Option (Option AcquisitionStatus)
read_acquisition_or_none null = some none
read_acquisition_or_none (str s) = elim (acquisition_of s) [ none ↦ none | some a ↦ some (some a) ]
read_acquisition_or_none _ = none

abbrev read_text_items : Items → Option (List String)
read_text_items nil = some []
read_text_items (item (str s) r) = elim (read_text_items r) [ none ↦ none | some l ↦ some (s ∷ l) ]
read_text_items (item _ r) = none

-- `list[str]`
abbrev pub read_texts : Value → Option (List String)
read_texts (list items) = read_text_items items
read_texts _ = none

-- `dict(value or {}) if isinstance(value, Mapping) else {}`
abbrev pub mapping_or_empty : Value → Dict
mapping_or_empty (dict d) = d
mapping_or_empty _ = empty
