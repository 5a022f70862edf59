-- ===== src/Evidence/Ranking/Bounds.antt =====
-- How many chunks a ranking returns.
use Prim.Native.Nat.{min}
use vertical_ai_research_act.Prelude.{
  ℕ, zero, suc, ◌≡◌, refl, String, Bool, List, [], ◌∷◌, map, arith, length, take, Bool-cases, inl,
  inr,
}
use vertical_ai_research_act.Evidence.Ranking.{
  insert_by, sort_by, range_from, ranks_before, all_zero, scores_from, rank_lexically,
}

module _ {ℓ} {A : Type ℓ} where
  length-insert_by :
      (before : A → A → Bool) (a : A) (xs : List A)
      → length (insert_by before a xs) ≡ suc (length xs)
  unfolding insert_by
  length-insert_by before a [] = refl
  length-insert_by before a (b ∷ rest) = ground (arith, length-insert_by before a rest)

  pub length-sort_by :
      (before : A → A → Bool) (xs : List A) → length (sort_by before xs) ≡ length xs
  unfolding sort_by
  length-sort_by before [] = refl
  length-sort_by before (a ∷ rest) =
      omega (arith, length-insert_by before a (sort_by before rest), length-sort_by before rest)

  length-take : (n : ℕ) (xs : List A) → length (take n xs) ≡ min n (length xs)
  length-take zero xs = omega arith
  length-take (suc n) [] = omega arith
  length-take (suc n) (x ∷ xs) = omega (arith, length-take n xs)

  length-map {κ} : {B : Type κ} (f : A → B) (xs : List A) → length (map f xs) ≡ length xs
  length-map f [] = refl
  length-map f (x ∷ xs) = omega (arith, length-map f xs)

  -- The best of a list, however they are ordered and named.
  pub length-best {κ} :
      {B : Type κ} (f : A → B) (limit : ℕ) (before : A → A → Bool) (xs : List A)
      → length (map f (take limit (sort_by before xs))) ≡ min limit (length xs)
  length-best f limit before xs = omega (
    arith,
    length-map f (take limit (sort_by before xs)),
    length-take limit (sort_by before xs),
    length-sort_by before xs,
  )

pub length-range_from : (start n : ℕ) → length (range_from start n) ≡ n
length-range_from start zero = refl
length-range_from start (suc n) = omega (arith, length-range_from (suc start) n)

module _ (casefold : String → String) where
  length-scores_from :
      (index : ℕ) (chunks : List String) (components : List (String × ℕ))
      → length (scores_from casefold index chunks components) ≡ length chunks
  unfolding scores_from
  length-scores_from index [] components = refl
  length-scores_from index (chunk ∷ chunks) components =
      omega (arith, length-scores_from (suc index) chunks components)

  pub length-rank_lexically :
      (chunks : List String) (components : List (String × ℕ)) (limit : ℕ)
      → length (rank_lexically casefold chunks components limit) ≡ min limit (length chunks)
  unfolding rank_lexically
  length-rank_lexically chunks components limit =
      let scores = scores_from casefold 0 chunks components in
      let counted = length-scores_from 0 chunks components in
      elim (Bool-cases (all_zero scores)) [
        | inl zeros ↦ rw zeros (length-range_from 0 (min limit (length chunks)))
        | inr some_score ↦
            rw some_score
              (omega (arith, counted, length-best (λ scored. scored.1) limit ranks_before scores))
      ]
