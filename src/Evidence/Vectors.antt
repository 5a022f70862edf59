-- ===== src/Evidence/Vectors.antt =====
-- The choice of chunks by the embeddings of an embedding client (`_select_with_embeddings` and
-- `_validated_vectors` of app/services/evidence/evidence_material_selector.py). The arithmetic of
-- Python's floats is a parameter; scores are compared as numbers, so that none is NaN.
pub mod Bounds
use vertical_ai_research_act.Prelude.{
  ℕ, zero, suc, ◌+◌, ◌≤◌, ◌<◌, ◌≡◌, refl, String, Bool, true, false, not, ◌&&◌, ◌||◌, Option, none,
  some, List, [], ◌∷◌, ◌++◌, map, arith, ltb, leb, eqb, length, is_empty, take, if◌then◌else◌,
}
use vertical_ai_research_act.Prelude.Int.{ℤ, pos, negsuc}
use vertical_ai_research_act.Prelude.Result.{Result, ok, raised, value_error, ◌>>=◌}
use vertical_ai_research_act.Prelude.Act
use vertical_ai_research_act.Prelude.Act.{Act, lift}
use vertical_ai_research_act.Evidence.Ranking.{sort_by, range_from}

-- What the code uses of `float`: `math.isfinite`, `sum`, `*`, `/`, `math.sqrt`, `<` and
-- `math.isclose(x, 0.0, abs_tol=1e-12)`.
pub record Floats (F : Type 0) : Type 0 where
  pub is_finite : F → Bool
  pub sum : List F → F
  pub times : F → F → F
  pub divided : F → F → F
  pub sqrt : F → F
  pub less : F → F → Bool
  pub is_near_zero : F → Bool

-- A result of the client as `getattr` and `isinstance` see it: an attribute that is missing or of
-- another kind is `none`.
pub record EmbeddingResult (F : Type 0) : Type 0 where
  pub text_index : Option ℤ
  pub embedding : Option (List (Option F))
  pub dimensions : Option ℕ

-- The values, if all are numbers.
abbrev numbers : {F : Type 0} → List (Option F) → Option (List F)
numbers [] = some []
numbers (none ∷ values) = none
numbers (some value ∷ values) = elim (numbers values) [
  | none ↦ none
  | some rest ↦ some (value ∷ rest)
]

abbrev all_of : {F : Type 0} → (F → Bool) → List F → Bool
all_of p [] = true
all_of p (value ∷ values) = p value && all_of p values

-- `indexed.get(index)`
abbrev vector_at : {F : Type 0} → List (ℕ × List F) → ℕ → Option (List F)
vector_at [] index = none
vector_at ((i, vector) ∷ indexed) index =
    if eqb i index then some vector else vector_at indexed index

abbrev is_indexed : {F : Type 0} → List (ℕ × List F) → ℕ → Bool
is_indexed [] index = false
is_indexed ((i, vector) ∷ indexed) index = eqb i index || is_indexed indexed index

abbrev has_dimensions : Option ℕ → ℕ → Bool
has_dimensions none size = false
has_dimensions (some declared) size = eqb declared size

-- `len(dimensions) == 1` over the vectors that were read.
abbrev has_one_size : {F : Type 0} → List (ℕ × List F) → Bool
has_one_size [] = false
has_one_size ((i, vector) ∷ indexed) =
    all_of (λ other. eqb (length other.1) (length vector)) indexed

-- The vectors of a range of indexes, if each has one.
abbrev vectors_from : {F : Type 0} → List (ℕ × List F) → List ℕ → Option (List (List F))
vectors_from indexed [] = some []
vectors_from indexed (index ∷ indexes) = elim (vector_at indexed index) [
  | none ↦ none
  | some vector ↦ elim (vectors_from indexed indexes) [
    | none ↦ none
    | some rest ↦ some (vector ∷ rest)
  ]
]

module _ {F : Type 0} (floats : Floats F) where
  unfoldable vector_norm : List F → F
  vector_norm vector = floats.sqrt (floats.sum (map (λ value. floats.times value value) vector))

  abbrev products : List F → List F → List F
  products [] right = []
  products (x ∷ left) [] = []
  products (x ∷ left) (y ∷ right) = floats.times x y ∷ products left right

  unfoldable cosine_similarity : List F → List F → F
  unfolding vector_norm
  cosine_similarity left right =
      floats.divided (floats.sum (products left right))
        (floats.times (vector_norm left) (vector_norm right))

  -- A vector of numbers, checked in the order of the code.
  abbrev checked_vector : Option ℕ → List F → Result (List F)
  checked_vector declared vector =
      if not (all_of floats.is_finite vector)
      then raised (value_error "embedding_vector_invalid")
      else if not (has_dimensions declared (length vector))
      then raised (value_error "embedding_dimension_mismatch")
      else if floats.is_near_zero (vector_norm vector)
      then raised (value_error "embedding_zero_vector")
      else ok vector

  abbrev number_vector : Option ℕ → Option (List F) → Result (List F)
  number_vector declared none = raised (value_error "embedding_vector_invalid")
  number_vector declared (some vector) = checked_vector declared vector

  -- One round of the loop of `_validated_vectors`.
  abbrev read_result :
      ℕ → List (ℕ × List F) → Option ℤ → Option (List (Option F)) → Option ℕ → Result (ℕ × List F)
  read_result expected indexed (some (pos index)) (some embedding) declared =
      if leb expected index || is_indexed indexed index
      then raised (value_error "embedding_result_index_invalid")
      else if is_empty embedding
      then raised (value_error "embedding_vector_invalid")
      else number_vector declared (numbers embedding) >>= λ vector. ok (index, vector)
  read_result expected indexed (some (negsuc n)) (some embedding) declared =
      raised (value_error "embedding_result_index_invalid")
  read_result expected indexed none embedding declared =
      raised (value_error "embedding_result_shape_invalid")
  read_result expected indexed (some index) none declared =
      raised (value_error "embedding_result_shape_invalid")

  unfoldable read_results :
      ℕ → List (ℕ × List F) → List (EmbeddingResult F) → Result (List (ℕ × List F))
  read_results expected indexed [] = ok indexed
  read_results expected indexed (result ∷ results) =
      read_result expected indexed result.text_index result.embedding result.dimensions >>= λ entry.
      read_results expected (entry ∷ indexed) results

  abbrev vectors_or_mismatch : Option (List (List F)) → Result (List (List F))
  vectors_or_mismatch none = raised (value_error "embedding_dimension_mismatch")
  vectors_or_mismatch (some vectors) = ok vectors

  -- `_validated_vectors`
  unfoldable validated_vectors : List (EmbeddingResult F) → ℕ → Result (List (List F))
  unfolding read_results
  validated_vectors results expected =
      if not (eqb (length results) expected)
      then raised (value_error "embedding_result_count_mismatch")
      else read_results expected [] results >>= λ indexed.
          if not (has_one_size indexed)
          then raised (value_error "embedding_dimension_mismatch")
          else vectors_or_mismatch (vectors_from indexed (range_from 0 expected))

  -- By the greater similarity, then by the smaller index.
  abbrev is_closer : F × ℕ → F × ℕ → Bool
  is_closer (score, index) (other, place) =
      floats.less other score || (not (floats.less score other) && ltb index place)

  abbrev similarities : List F → List (List F) → List ℕ → List (F × ℕ)
  similarities intent_vector [] indexes = []
  similarities intent_vector (vector ∷ vectors) [] = []
  similarities intent_vector (vector ∷ vectors) (index ∷ indexes) =
      (cosine_similarity intent_vector vector, index) ∷ similarities intent_vector vectors indexes

  -- The first vector is that of the intent.
  unfoldable pub closest : ℕ → List (List F) → List ℕ → List ℕ
  unfolding cosine_similarity sort_by
  closest limit [] candidate_indexes = []
  closest limit (intent_vector ∷ vectors) candidate_indexes =
      map (λ scored. scored.1)
        (take limit (sort_by is_closer (similarities intent_vector vectors candidate_indexes)))

-- `chunks[index]`, for an index inside the list.
abbrev pub chunk_at : List String → ℕ → String
chunk_at [] index = ""
chunk_at (chunk ∷ chunks) zero = chunk
chunk_at (chunk ∷ chunks) (suc index) = chunk_at chunks index

module _ {F W : Type 0} (floats : Floats F)
    (embed_texts : List String → Act W (List (EmbeddingResult F))) where
  -- `_select_with_embeddings`
  unfoldable pub select_with_embeddings : ℕ → String → List String → List ℕ → Act W (List ℕ)
  unfolding closest validated_vectors
  select_with_embeddings limit intent chunks candidate_indexes =
      let texts = intent ∷ map (chunk_at chunks) candidate_indexes in
      Act.◌>>=◌ (embed_texts texts) (λ results. lift (
        validated_vectors floats results (length texts) >>= λ vectors.
        ok (closest floats limit vectors candidate_indexes)))
