-- ===== src/Evidence/Selector.antt =====
-- The choice of the material that a language model sees (`select` of
-- app/services/evidence/evidence_material_selector.py). What Python tells of an exception, and the
-- embedding client, are parameters.
pub mod Bounds
use vertical_ai_research_act.Prelude.{
  ℕ, String, ◌<>◌, Bool, true, false, not, Option, none, some, List, [], ◌∷◌, map, ltb, leb, length,
  string_eq, contains, if◌then◌else◌, is_some,
}
use vertical_ai_research_act.Prelude.Result.{Result, ok, raised, Exception}
use vertical_ai_research_act.Prelude.Act.{Act}
use vertical_ai_research_act.Text.{is_blank, strip, join, char_count, first_chars}
use vertical_ai_research_act.Domain.Retrieval.{NormalizedRetrievalItem}
use vertical_ai_research_act.Domain.Evidence.{EvidenceProcessingRequest}
use vertical_ai_research_act.Evidence.Chunks.{split_chunks}
use vertical_ai_research_act.Evidence.Ranking.{
  intent_components, rank_lexically, range_from, sort_by,
}
use vertical_ai_research_act.Evidence.Vectors.{
  Floats, EmbeddingResult, chunk_at, select_with_embeddings,
}

abbrev pub max_material_chars : ℕ
max_material_chars = 24000

abbrev pub max_selected_chunks : ℕ
max_selected_chunks = 4

abbrev pub max_embedding_chunks : ℕ
max_embedding_chunks = 63

pub data SelectionMethod : Type 0 where
  by_full_content by_embedding by_lexical_fallback : SelectionMethod

pub record EvidenceMaterialSelection : Type 0 where
  pub content : String
  pub selection_method : SelectionMethod
  pub original_char_count : ℕ
  pub selected_char_count : ℕ
  pub total_chunk_count : ℕ
  pub embedding_candidate_count : ℕ
  pub selected_chunk_count : ℕ
  pub degradation_reason : Option String

-- `str(error)`, its `error_category` where that is a text, and `type(error).__name__`.
pub record ErrorReading : Type 0 where
  pub message : Exception → String
  pub error_category : Exception → Option String
  pub type_name : Exception → String

abbrev stable_reasons : List String
stable_reasons =
    "embedding_result_count_mismatch" ∷ "embedding_result_shape_invalid"
    ∷ "embedding_result_index_invalid" ∷ "embedding_vector_invalid" ∷ "embedding_dimension_mismatch"
    ∷ "embedding_zero_vector" ∷ []

abbrev category_or : Option String → String → String
category_or none name = name
category_or (some category) name = if is_blank category then name else category

-- `_embedding_degradation_reason`
unfoldable embedding_degradation_reason : ErrorReading → Exception → String
embedding_degradation_reason errors error =
    if contains stable_reasons (errors.message error)
    then errors.message error
    else "embedding_" <> category_or (errors.error_category error) (errors.type_name error)

-- Short content is kept whole.
abbrev whole_content : String → EvidenceMaterialSelection
whole_content content = record {
  content = content;
  selection_method = by_full_content;
  original_char_count = char_count content;
  selected_char_count = char_count content;
  total_chunk_count = if is_blank content then 0 else 1;
  embedding_candidate_count = 0;
  selected_chunk_count = if is_blank content then 0 else 1;
  degradation_reason = none;
}

-- The chosen chunks in the order of the content, cut at the limit.
abbrev material_of : List String → List ℕ → String
material_of chunks indexes =
    first_chars max_material_chars (join "\n\n" (map (chunk_at chunks) (sort_by ltb indexes)))

abbrev chosen_content :
    String → List String → List ℕ → Option String × List ℕ → EvidenceMaterialSelection
chosen_content content chunks candidate_indexes (degradation, indexes) = record {
  content = material_of chunks indexes;
  selection_method = if is_some degradation then by_lexical_fallback else by_embedding;
  original_char_count = char_count content;
  selected_char_count = char_count (material_of chunks indexes);
  total_chunk_count = length chunks;
  embedding_candidate_count = length candidate_indexes;
  selected_chunk_count = length (sort_by ltb indexes);
  degradation_reason = degradation;
}

-- Any exception of the embeddings is a reason to rank by words.
abbrev embedded_or : ErrorReading → List ℕ → Result (List ℕ) → Option String × List ℕ
embedded_or errors lexical (ok indexes) = (none, indexes)
embedded_or errors lexical (raised e) = (some (embedding_degradation_reason errors e), lexical)

module _ {F W : Type 0} (casefold : String → String) (floats : Floats F)
    (errors : ErrorReading) where
  unfoldable selected_indexes :
      Option (List String → Act W (List (EmbeddingResult F)))
      → String
      → List String
      → List ℕ
      → List ℕ
      → W
      → (Option String × List ℕ) × W
  unfolding select_with_embeddings
  selected_indexes none intent chunks candidates lexical w =
      ((some "embedding_client_unavailable", lexical), w)
  selected_indexes (some embed_texts) intent chunks candidates lexical w =
      let (chosen, w') =
        select_with_embeddings floats embed_texts max_selected_chunks intent chunks candidates w in
      if is_blank intent
      then ((some "empty_research_intent", lexical), w)
      else (embedded_or errors lexical chosen, w')

  unfoldable pub select :
      Option (List String → Act W (List (EmbeddingResult F)))
      → EvidenceProcessingRequest
      → NormalizedRetrievalItem
      → W
      → EvidenceMaterialSelection × W
  unfolding strip char_count split_chunks intent_components rank_lexically selected_indexes
      first_chars sort_by embedding_degradation_reason
  select embedding_client request material w =
      let content = strip material.content in
      let chunks = split_chunks content in
      let components = intent_components request in
      let intent = join "\n" (map (λ component. component.0) components) in
      let candidate_indexes =
        if ltb max_embedding_chunks (length chunks)
        then rank_lexically casefold chunks components max_embedding_chunks
        else range_from 0 (length chunks) in
      let lexical = rank_lexically casefold chunks components max_selected_chunks in
      let (chosen, w') =
        selected_indexes embedding_client intent chunks candidate_indexes lexical w in
      if leb (char_count content) max_material_chars
      then (whole_content content, w)
      else (chosen_content content chunks candidate_indexes chosen, w')
