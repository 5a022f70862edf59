-- ===== src/Domain/Retrieval/SourceSummary.antt =====
-- RetrievalSourceSummary (app/domain/models/retrieval/retrieval_source_summary.py).
use package.vertical_ai_research_act.Prelude.{
  ℕ, String, Option, none, some, List, [], ◌∷◌, string_eq, contains, not,
}
use package.vertical_ai_research_act.Prelude.Result.{Result, ok, require, ◌>>=◌}
use package.vertical_ai_research_act.Domain.Enums.{FamilyName, family_value}
use package.vertical_ai_research_act.Domain.Value.{
  Value, null, str, Dict, empty, entry, get, update, collect, str_value, nat_value, value_or,
}
use package.vertical_ai_research_act.Domain.Retrieval.Pydantic.{
  Pydantic, read_count, read_text_or_none, read_family_or_none, mapping_or_empty,
}

pub record RetrievalSourceSummary : Type 0 where
  pub selected_family : Option FamilyName
  pub selected_tool : Option String
  pub normalized_count : ℕ
  pub metadata : Dict

abbrev pub family_or_null : Option FamilyName → Value
family_or_null none = null
family_or_null (some f) = str (family_value f)

unfoldable pub to_legacy_dict : RetrievalSourceSummary → Dict
unfolding update
to_legacy_dict s =
    update
      (entry "selected_family" (family_or_null s.selected_family) (
        entry "selected_tool" (str_value s.selected_tool)
          (entry "normalized_count" (nat_value s.normalized_count) empty)))
      s.metadata

abbrev known_keys : List String
known_keys = "selected_family" ∷ "selected_tool" ∷ "normalized_count" ∷ "metadata" ∷ []

-- `model_validate` of a mapping, with the legacy validator that runs before it.
unfoldable pub model_validate : Pydantic → Dict → Result RetrievalSourceSummary
unfolding get collect
model_validate p d = do
  selected_family ← require "RetrievalSourceSummary" (read_family_or_none (get d "selected_family"))
  selected_tool ← require "RetrievalSourceSummary" (read_text_or_none (get d "selected_tool"))
  normalized_count ←
      require "RetrievalSourceSummary"
        (read_count p (value_or (get d "normalized_count") (nat_value 0)))
  ok (record {
    selected_family = selected_family;
    selected_tool = selected_tool;
    normalized_count = normalized_count;
    metadata = collect (λ k v. not (contains known_keys k)) (mapping_or_empty (get d "metadata")) d;
  })
