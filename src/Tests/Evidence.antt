-- ===== src/Tests/Evidence.antt =====
-- Runs of the selection of evidence material: an embedding client that finds every text alike, and
-- content of 30000 characters.
use vertical_ai_research_act.Prelude.{
  ℕ, zero, suc, ◌+◌, ◌*◌, String, ◌<>◌, true, none, some, List, [], ◌∷◌, eqb, ltb,
}
use vertical_ai_research_act.Prelude.Int.{pos}
use vertical_ai_research_act.Prelude.Result.{ok}
use vertical_ai_research_act.Prelude.Act.{Act}
use vertical_ai_research_act.Text.{char_count, strip}
use vertical_ai_research_act.Domain.Retrieval.{NormalizedRetrievalItem}
use vertical_ai_research_act.Domain.Value.{empty}
use vertical_ai_research_act.Domain.Evidence.{EvidenceProcessingRequest, from_tool_execution_result}
use vertical_ai_research_act.Evidence.Chunks.{Covers, chunk_spans, chunk_spans-all}
use vertical_ai_research_act.Evidence.Vectors.{Floats, EmbeddingResult}
use vertical_ai_research_act.Evidence.Selector.{ErrorReading, select}
use vertical_ai_research_act.Evidence.Selector.Bounds.{IsSelectionOf, select-IsSelectionOf}
use vertical_ai_research_act.Tests.Data.{no_result}

abbrev short_content : String
short_content = "First paragraph.\n\nSecond paragraph."

chunk_spans-all_example :
    Covers 0 (char_count short_content) (chunk_spans short_content (char_count short_content) 0)
chunk_spans-all_example = chunk_spans-all short_content

abbrev whole_floats : Floats ℕ
whole_floats = record {
  is_finite = λ x. true;
  sum = total;
  times = λ x y. x * y;
  divided = λ x y. x;
  sqrt = λ x. x;
  less = ltb;
  is_near_zero = λ x. eqb x 0;
}
  where
    total : List ℕ → ℕ
    total [] = 0
    total (x ∷ xs) = x + total xs

abbrev alike : ℕ → List String → List (EmbeddingResult ℕ)
alike index [] = []
alike index (text ∷ texts) =
    record {
      text_index = some (pos index);
      embedding = some (some 1 ∷ some 2 ∷ []);
      dimensions = some 2;
    }
    ∷ alike (suc index) texts

abbrev client : List String → Act ℕ (List (EmbeddingResult ℕ))
client texts calls = (ok (alike 0 texts), suc calls)

abbrev errors : ErrorReading
errors = record {
  message = λ e. "failed";
  error_category = λ e. none;
  type_name = λ e. "RuntimeError";
}

unfoldable repeated : ℕ → String → String
repeated zero text = ""
repeated (suc n) text = text <> repeated n text

abbrev material : NormalizedRetrievalItem
material = record {
  item_id = "item";
  source_family = none;
  source_references = [];
  content = repeated 3000 "paragraph ";
  content_type = none;
  metadata = empty;
}

abbrev request : EvidenceProcessingRequest
request = from_tool_execution_result (record no_result {
  retrieval_trace = record no_result.retrieval_trace { generated_query = some "paragraph" };
})

select-IsSelectionOf_example :
    IsSelectionOf
      (strip material.content)
      (select (λ s. s) whole_floats errors (some client) request material 0).0
select-IsSelectionOf_example =
    select-IsSelectionOf (λ s. s) whole_floats errors (some client) request material 0
