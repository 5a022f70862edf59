-- ===== src/Evidence/Ranking.antt =====
-- The ranking of chunks by the words that they share with the research intent (`_rank_lexically` of
-- app/services/evidence/evidence_material_selector.py). The weights are whole, so that the scores are
-- natural numbers. `casefold` is `str.casefold`; a set of terms is a list, of which only the members
-- count.
pub mod Bounds
use Prim.Native.Char.{Char, code}
use Prim.Native.Nat.{min}
use Prim.Native.String
use vertical_ai_research_act.Prelude.{
  ℕ, zero, suc, ◌+◌, ◌*◌, ◌≤◌, ◌<◌, ◌≡◌, refl, String, Bool, true, false, not, ◌&&◌, ◌||◌, Option,
  none, some, List, [], ◌∷◌, ◌++◌, map, filter, arith, ltb, leb, eqb, string_eq, contains, dedupe,
  length, take, if◌then◌else◌, Bool-cases, inl, inr,
}
use vertical_ai_research_act.Text.{
  is_blank, strip, join, split_words, push_word, occurs_in, char_count, first_chars,
}
use vertical_ai_research_act.Domain.Value.{Value, str, get}
use vertical_ai_research_act.Domain.Evidence.{EvidenceProcessingRequest}
use vertical_ai_research_act.Domain.Retrieval.Trace.{RetrievalTrace}

-- The run that a text begins with, blank where there is none, and the runs behind it.
unfoldable run_front : (ℕ → Bool) → String → String × List String
run_front is_in String.[] = ("", [])
run_front is_in (String.◌∷◌ c s) =
    let (run, runs) = run_front is_in s in
    if is_in (code c) then (String.◌∷◌ c run, runs) else ("", push_word run runs)

-- `re.findall` of a class of characters, repeated.
unfoldable runs_of : (ℕ → Bool) → String → List String
unfolding run_front
runs_of is_in value = let (run, runs) = run_front is_in value in push_word run runs

-- `[a-z0-9]`
abbrev is_latin : ℕ → Bool
is_latin c = (leb 97 c && leb c 122) || (leb 48 c && leb c 57)

-- `[\u3400-\u9fff]`
abbrev is_han : ℕ → Bool
is_han c = leb 0x3400 c && leb c 0x9fff

-- All parts of a sequence that have the size.
unfoldable windows : ℕ → String → List String
unfolding char_count first_chars
windows size String.[] = []
windows size (String.◌∷◌ c s) =
    let rest = windows size s in
    if leb size (char_count (String.◌∷◌ c s)) then first_chars size (String.◌∷◌ c s) ∷ rest else []

abbrev han_terms : List String → List String
han_terms [] = []
han_terms (sequence ∷ sequences) = windows 2 sequence ++ windows 3 sequence ++ han_terms sequences

-- A key of the context whose value is a text.
abbrev text_of : Value → Option String
text_of (str s) = some s
text_of _ = none

abbrev push_component : Option String → ℕ → List (String × ℕ) → List (String × ℕ)
push_component none weight components = components
push_component (some value) weight components =
    if is_blank (strip value) then components else (strip value, weight) ∷ components

-- `_intent_components`
unfoldable pub intent_components : EvidenceProcessingRequest → List (String × ℕ)
unfolding strip get
intent_components request =
    let trace = request.retrieval_trace in
    push_component trace.generated_query 4 (
      push_component trace.target_problem 3 (
        push_component (text_of (get trace.context "sub_question")) 2
          (push_component (text_of (get trace.context "gap")) 2 [])))

-- `sorted` by a key, which is stable.
unfoldable insert_by {ℓ} : {A : Type ℓ} → (A → A → Bool) → A → List A → List A
insert_by before a [] = a ∷ []
insert_by before a (b ∷ rest) = if before b a then b ∷ insert_by before a rest else a ∷ b ∷ rest

unfoldable pub sort_by {ℓ} : {A : Type ℓ} → (A → A → Bool) → List A → List A
unfolding insert_by
sort_by before [] = []
sort_by before (a ∷ rest) = insert_by before a (sort_by before rest)

-- `range(start, start + n)`
abbrev pub range_from : ℕ → ℕ → List ℕ
range_from start zero = []
range_from start (suc n) = start ∷ range_from (suc start) n

-- By the greater score, then by the smaller index.
abbrev ranks_before : ℕ × ℕ → ℕ × ℕ → Bool
ranks_before (score, index) (other, place) = ltb other score || (eqb score other && ltb index place)

abbrev all_zero : List (ℕ × ℕ) → Bool
all_zero [] = true
all_zero ((score, index) ∷ scores) = eqb score 0 && all_zero scores

module _ (casefold : String → String) where
  unfoldable lexical_terms : String → List String
  unfolding runs_of windows
  lexical_terms value =
      runs_of is_latin (casefold value) ++ han_terms (runs_of is_han (casefold value))

  -- `re.sub(r"\s+", " ", ...).strip()` is the words with one space between them.
  unfoldable normalize_for_phrase : String → String
  unfolding split_words
  normalize_for_phrase value = join " " (split_words (casefold value))

  -- What one part of the intent adds to the score of a chunk.
  unfoldable component_score : String → String × ℕ → ℕ
  unfolding lexical_terms normalize_for_phrase occurs_in dedupe filter
  component_score chunk (value, weight) =
      let normalized_value = normalize_for_phrase value in
      weight * length (filter (contains (lexical_terms chunk)) (dedupe (lexical_terms value)))
      + (if not (is_blank normalized_value)
            && occurs_in normalized_value (normalize_for_phrase chunk)
          then weight * 5
          else 0)

  unfoldable lexical_score : String → List (String × ℕ) → ℕ
  unfolding component_score
  lexical_score chunk [] = 0
  lexical_score chunk (component ∷ components) =
      component_score chunk component + lexical_score chunk components

  unfoldable scores_from : ℕ → List String → List (String × ℕ) → List (ℕ × ℕ)
  unfolding lexical_score
  scores_from index [] components = []
  scores_from index (chunk ∷ chunks) components =
      (lexical_score chunk components, index) ∷ scores_from (suc index) chunks components

  -- `_rank_lexically`
  unfoldable pub rank_lexically : List String → List (String × ℕ) → ℕ → List ℕ
  unfolding scores_from sort_by
  rank_lexically chunks components limit =
      let scores = scores_from 0 chunks components in
      if all_zero scores
      then range_from 0 (min limit (length chunks))
      else map (λ scored. scored.1) (take limit (sort_by ranks_before scores))
