-- ===== src/Evidence/Vectors/Bounds.antt =====
-- How many chunks the embeddings choose.
use Prim.Native.Nat.{min}
use vertical_ai_research_act.Prelude.{ℕ, ◌≤◌, String, List, [], ◌∷◌, arith, length}
use vertical_ai_research_act.Prelude.Result.{Result, ok, raised, ◌>>=◌}
use vertical_ai_research_act.Prelude.Act.{Act, Returned, Ensures, Ensures-then, Ensures-lift}
use vertical_ai_research_act.Evidence.Ranking.Bounds.{length-best}
use vertical_ai_research_act.Evidence.Vectors.{
  Floats, EmbeddingResult, similarities, is_closer, closest, validated_vectors,
  select_with_embeddings,
}

module _ {F : Type 0} (floats : Floats F) where
  length-similarities :
      (intent_vector : List F) (vectors : List (List F)) (indexes : List ℕ)
      → length (similarities floats intent_vector vectors indexes) ≤ length indexes
  length-similarities intent_vector [] indexes = omega arith
  length-similarities intent_vector (vector ∷ vectors) [] = omega arith
  length-similarities intent_vector (vector ∷ vectors) (index ∷ indexes) =
      omega (arith, length-similarities intent_vector vectors indexes)

  length-closest :
      (limit : ℕ) (vectors : List (List F)) (indexes : List ℕ)
      → length (closest floats limit vectors indexes) ≤ min limit (length indexes)
  unfolding closest
  length-closest limit [] indexes = omega arith
  length-closest limit (intent_vector ∷ vectors) indexes =
      let chosen = similarities floats intent_vector vectors indexes in
      omega (
        arith,
        length-best (λ scored. scored.1) limit (is_closer floats) chosen,
        length-similarities intent_vector vectors indexes,
      )

module _ {F W : Type 0} (floats : Floats F)
    (embed_texts : List String → Act W (List (EmbeddingResult F))) where
  pub select_with_embeddings-Ensures :
      (limit : ℕ) (intent : String) (chunks : List String) (indexes : List ℕ)
      → Ensures
          (λ chosen. length chosen ≤ min limit (length indexes))
          (select_with_embeddings floats embed_texts limit intent chunks indexes)
  unfolding select_with_embeddings
  select_with_embeddings-Ensures limit intent chunks indexes =
      Ensures-then _ (embed_texts _) _
        (λ results. Ensures-lift _ _ (chosen_within (validated_vectors floats results _)))
    where
      chosen_within :
          (vectors : Result (List (List F)))
          → Returned
              (λ chosen. length chosen ≤ min limit (length indexes))
              (vectors >>= λ vs. ok (closest floats limit vs indexes))
      chosen_within (ok vs) = length-closest floats limit vs indexes
      chosen_within (raised e) = tt
