-- ===== src/Evidence/Selector/Bounds.antt =====
-- How much material the selector lets through.
use Prim.Native.Nat.{min}
use vertical_ai_research_act.Prelude.{
  ℕ, zero, suc, ◌≤◌, ◌<◌, ◌≡◌, refl, String, Bool, true, false, Option, none, some, List, ltb, leb,
  length, arith, if◌then◌else◌, is_some, Bool-cases, inl, inr,
}
use vertical_ai_research_act.Prelude.Result.{Result, ok, raised}
use vertical_ai_research_act.Prelude.Act.{Act, Returned, Ensures, Ensures-weaken}
use vertical_ai_research_act.Text.{is_blank, strip, char_count, first_chars}
use vertical_ai_research_act.Domain.Retrieval.{NormalizedRetrievalItem}
use vertical_ai_research_act.Domain.Evidence.{EvidenceProcessingRequest}
use vertical_ai_research_act.Evidence.Chunks.{split_chunks}
use vertical_ai_research_act.Evidence.Ranking.{intent_components, rank_lexically, range_from}
use vertical_ai_research_act.Evidence.Ranking.Bounds.{
  length-rank_lexically, length-range_from, length-sort_by,
}
use vertical_ai_research_act.Evidence.Vectors.{Floats, EmbeddingResult, select_with_embeddings}
use vertical_ai_research_act.Evidence.Vectors.Bounds.{select_with_embeddings-Ensures}
use vertical_ai_research_act.Evidence.Selector.{
  EvidenceMaterialSelection, SelectionMethod, by_embedding, by_lexical_fallback, ErrorReading,
  whole_content, chosen_content, embedded_or, selected_indexes, select, max_material_chars,
  max_selected_chunks, max_embedding_chunks,
}

abbrev degrades : SelectionMethod → Bool
degrades by_lexical_fallback = true
degrades _ = false

-- What `select` promises of its answer for a content.
pub record IsSelectionOf (content : String) (s : EvidenceMaterialSelection) : Type 0 where
  pub short : char_count s.content ≤ max_material_chars
  pub counted : s.selected_char_count ≡ char_count s.content
  pub original : s.original_char_count ≡ char_count content
  pub few_chunks : s.selected_chunk_count ≤ max_selected_chunks
  pub of_the_chunks : s.selected_chunk_count ≤ s.total_chunk_count
  pub few_embedded : s.embedding_candidate_count ≤ max_embedding_chunks
  pub explained : degrades s.selection_method ≡ is_some s.degradation_reason
  -- Content that is not too long is kept.
  pub kept : char_count content ≤ max_material_chars → s.content ≡ content

char_count-first_chars : (n : ℕ) (s : String) → char_count (first_chars n s) ≤ n
unfolding char_count first_chars
char_count-first_chars zero s = omega arith
char_count-first_chars (suc n) String.[] = omega arith
char_count-first_chars (suc n) (String.◌∷◌ c s) = omega (arith, char_count-first_chars n s)

whole_content-IsSelectionOf :
    (content : String)
    → char_count content ≤ max_material_chars
    → IsSelectionOf content (whole_content content)
whole_content-IsSelectionOf content h = record {
  short = h;
  counted = refl;
  original = refl;
  few_chunks = ground arith;
  of_the_chunks = omega arith;
  few_embedded = omega arith;
  explained = refl;
  kept = λ _. refl;
}

degrades-chosen :
    (degradation : Option String)
    → degrades (if is_some degradation then by_lexical_fallback else by_embedding)
      ≡ is_some degradation
degrades-chosen none = refl
degrades-chosen (some reason) = refl

chosen_content-IsSelectionOf :
    (content : String) (chunks : List String) (candidate_indexes : List ℕ)
    (chosen : Option String × List ℕ)
    → max_material_chars < char_count content
    → length chosen.1 ≤ min max_selected_chunks (length chunks)
    → length candidate_indexes ≤ max_embedding_chunks
    → IsSelectionOf content (chosen_content content chunks candidate_indexes chosen)
chosen_content-IsSelectionOf content chunks candidate_indexes (degradation, indexes) long few
      bound =
    let sorted = length-sort_by ltb indexes in
    record {
      short = char_count-first_chars max_material_chars _;
      counted = refl;
      original = refl;
      few_chunks = omega arith;
      of_the_chunks = omega arith;
      few_embedded = bound;
      explained = degrades-chosen degradation;
      kept = λ h. ground arith;
    }

length-embedded_or :
    (errors : ErrorReading) (bound : ℕ) (lexical : List ℕ) (chosen : Result (List ℕ))
    → length lexical ≤ bound
    → Returned (λ indexes. length indexes ≤ bound) chosen
    → length (embedded_or errors lexical chosen).1 ≤ bound
length-embedded_or errors bound lexical (ok indexes) h r = r
length-embedded_or errors bound lexical (raised e) h r = h

candidates_within :
    (casefold : String → String) (chunks : List String) (components : List (String × ℕ))
    → let candidate_indexes =
        if ltb max_embedding_chunks (length chunks)
        then rank_lexically casefold chunks components max_embedding_chunks
        else range_from 0 (length chunks) in
      (length candidate_indexes ≤ max_embedding_chunks) × (length candidate_indexes ≤ length chunks)
candidates_within casefold chunks components =
    elim (Bool-cases (ltb max_embedding_chunks (length chunks))) [
      | inl many ↦
          let ranked = length-rank_lexically casefold chunks components max_embedding_chunks in
          rw many (omega arith, omega arith)
      | inr few ↦
          let all = length-range_from 0 (length chunks) in rw few (ground arith, ground arith)
    ]

module _ {F W : Type 0} (casefold : String → String) (floats : Floats F)
    (errors : ErrorReading) where
  embedded_within :
      (embed_texts : List String → Act W (List (EmbeddingResult F))) (intent : String)
      (chunks : List String) (candidates : List ℕ)
      → length candidates ≤ length chunks
      → Ensures
          (λ chosen. length chosen ≤ min max_selected_chunks (length chunks))
          (select_with_embeddings floats embed_texts max_selected_chunks intent chunks candidates)
  embedded_within embed_texts intent chunks candidates c =
      Ensures-weaken _ _ _ (λ chosen within. omega arith)
        (select_with_embeddings-Ensures floats embed_texts max_selected_chunks intent chunks
          candidates)

  length-selected_indexes :
      (embedding_client : Option (List String → Act W (List (EmbeddingResult F)))) (intent : String)
      (chunks : List String) (candidates lexical : List ℕ) (w : W)
      → length candidates ≤ length chunks
      → length lexical ≤ min max_selected_chunks (length chunks)
      → length
          (selected_indexes casefold floats errors embedding_client intent chunks candidates lexical
            w).0.1
        ≤ min max_selected_chunks (length chunks)
  unfolding selected_indexes
  length-selected_indexes none intent chunks candidates lexical w c h = h
  length-selected_indexes (some embed_texts) intent chunks candidates lexical w c h =
      let limit = min max_selected_chunks (length chunks) in
      elim (Bool-cases (is_blank intent)) [
        | inl blank ↦ rw blank h
        | inr given ↦ rw given (
            length-embedded_or errors limit lexical _ h
              ((embedded_within embed_texts intent chunks candidates c).at w))
      ]

  -- For every embedding client, whatever it answers or raises, `select` returns a selection. Its
  -- content has at most 24000 characters and is the stripped content itself if that is no longer; the
  -- counts of characters are those of the two contents; at most 4 chunks are selected, not more than
  -- there are, and at most 63 are embedded; the method is the lexical fallback exactly if there is a
  -- reason for the degradation.
  pub select-IsSelectionOf :
      (embedding_client : Option (List String → Act W (List (EmbeddingResult F))))
      (request : EvidenceProcessingRequest) (material : NormalizedRetrievalItem) (w : W)
      → IsSelectionOf
          (strip material.content)
          (select casefold floats errors embedding_client request material w).0
  unfolding select
  select-IsSelectionOf embedding_client request material w =
      let content = strip material.content in
      let chunks = split_chunks content in
      let components = intent_components request in
      let within = candidates_within casefold chunks components in
      let lexical = length-rank_lexically casefold chunks components max_selected_chunks in
      elim (Bool-cases (leb (char_count content) max_material_chars)) [
        | inl short ↦ rw short (whole_content-IsSelectionOf content (ground arith))
        | inr long ↦ rw long (
            chosen_content-IsSelectionOf content chunks _ _ (ground arith)
              (length-selected_indexes embedding_client _ chunks _ _ w within.1 (omega arith))
              within.0)
      ]
