-- ===== src/Evidence/Chunks.antt =====
-- How long material is cut into chunks (`_split_chunks` of app/services/evidence/
-- evidence_material_selector.py): at most 6000 characters each, preferably up to a blank line, each
-- chunk beginning up to 300 characters before the end of the one before it.
use Prim.Native.Nat.{min}
use vertical_ai_research_act.Prelude.{
  ℕ, zero, suc, ◌+◌, ◌-◌, ◌≤◌, ◌<◌, max, ◌≡◌, String, Bool, true, not, ◌&&◌, Option, none, some,
  List, [], ◌∷◌, map, filter, arith, ltb, leb, Bool-cases, inl, inr, if◌then◌else◌,
}
use vertical_ai_research_act.Text.{begins_with, char_count, first_chars, is_blank, strip}

abbrev pub chunk_chars : ℕ
chunk_chars = 6000

abbrev pub chunk_overlap_chars : ℕ
chunk_overlap_chars = 300

abbrev preferred_minimum : ℕ
preferred_minimum = 3000

-- `content.rfind("\n\n", low, high)` from a position on, with the last place found so far.
unfoldable rfind_break : String → ℕ → ℕ → ℕ → Option ℕ → Option ℕ
unfolding begins_with
rfind_break String.[] position low high found = found
rfind_break (String.◌∷◌ c rest) position low high found = rfind_break rest (suc position) low high (
    if leb low position && leb (position + 2) high && begins_with (String.◌∷◌ c rest) "\n\n"
    then some position
    else found)

-- The end of a chunk, at a blank line that was found behind its start, or at the hard end.
abbrev break_or : ℕ → ℕ → Option ℕ → ℕ
break_or start hard_end none = hard_end
break_or start hard_end (some paragraph_end) =
    if ltb start paragraph_end then paragraph_end else hard_end

unfoldable pub chunk_end : String → ℕ → ℕ
unfolding rfind_break char_count
chunk_end content start =
    let hard_end = min (start + chunk_chars) (char_count content) in
    if ltb hard_end (char_count content)
    then break_or start hard_end (rfind_break content 0 (start + preferred_minimum) hard_end none)
    else hard_end

-- The spans of the chunks from a start on; the length of the content is enough fuel.
unfoldable pub chunk_spans : String → ℕ → ℕ → List (ℕ × ℕ)
unfolding chunk_end char_count
chunk_spans content zero start = []
chunk_spans content (suc fuel) start =
    let end = chunk_end content start in
    let rest = chunk_spans content fuel (max (end - chunk_overlap_chars) (start + 1)) in
    if ltb start (char_count content)
    then (start, end) ∷ (if leb (char_count content) end then [] else rest)
    else []

unfoldable drop_chars : ℕ → String → String
drop_chars zero content = content
drop_chars (suc n) String.[] = ""
drop_chars (suc n) (String.◌∷◌ c rest) = drop_chars n rest

-- `content[start:end]`
abbrev slice : String → ℕ × ℕ → String
slice content (start, end) = first_chars (end - start) (drop_chars start content)

-- `_split_chunks`
unfoldable pub split_chunks : String → List String
unfolding chunk_spans drop_chars first_chars strip filter char_count
split_chunks content =
    filter (λ chunk. not (is_blank chunk))
      (map (λ span. strip (slice content span)) (chunk_spans content (char_count content) 0))

abbrev pub IsChunkEnd : ℕ → ℕ → ℕ → Type 0
IsChunkEnd start total end = (start < end) × (end ≤ start + chunk_chars) × (end ≤ total)

-- The spans continue what is covered, each at its end or up to the overlap before it, and go on to
-- the length of the content.
abbrev pub Covers : ℕ → ℕ → List (ℕ × ℕ) → Type 0
Covers covered total [] = total ≤ covered
Covers covered total ((start, end) ∷ spans) =
    (start ≤ covered)
    × (covered ≤ start + chunk_overlap_chars)
    × IsChunkEnd start total end
    × Covers end total spans

abbrev Below : ℕ → Option ℕ → Type 0
Below high none = Unit
Below high (some position) = position < high

break_below :
    (low position high : ℕ) (is_break : Bool)
    → (leb low position && leb (position + 2) high && is_break) ≡ true
    → position < high
break_below low position high is_break h = ground arith

rfind_break-Below :
    (rest : String) (position low high : ℕ) (found : Option ℕ)
    → Below high found
    → Below high (rfind_break rest position low high found)
unfolding rfind_break
rfind_break-Below String.[] position low high found h = h
rfind_break-Below (String.◌∷◌ c rest) position low high found h =
    elim (Bool-cases
      (leb low position && leb (position + 2) high && begins_with (String.◌∷◌ c rest) "\n\n")) [
        | inl here ↦ rw here (
            rfind_break-Below rest (suc position) low high (some position)
              (break_below low position high (begins_with (String.◌∷◌ c rest) "\n\n") here))
        | inr not_here ↦ rw not_here (rfind_break-Below rest (suc position) low high found h)
      ]

break_or-within :
    (start hard_end total : ℕ) (found : Option ℕ)
    → Below hard_end found
    → start < hard_end
    → hard_end ≤ start + chunk_chars
    → hard_end ≤ total
    → IsChunkEnd start total (break_or start hard_end found)
break_or-within start hard_end total none below behind short inside = (behind, short, inside)
break_or-within start hard_end total (some paragraph_end) below behind short inside =
    elim (Bool-cases (ltb start paragraph_end)) [
      | inl later ↦ rw later (ground arith, omega arith, omega arith)
      | inr earlier ↦ rw earlier (behind, short, inside)
    ]

chunk_end-IsChunkEnd :
    (content : String) (start : ℕ)
    → start < char_count content
    → IsChunkEnd start (char_count content) (chunk_end content start)
unfolding chunk_end
chunk_end-IsChunkEnd content start inside =
    elim (Bool-cases (ltb (min (start + chunk_chars) (char_count content)) (char_count content))) [
      | inl cut ↦ rw cut (
          break_or-within start (min (start + chunk_chars) (char_count content))
            (char_count content) _
            (rfind_break-Below content 0 (start + preferred_minimum)
              (min (start + chunk_chars) (char_count content)) none tt)
            (omega arith) (omega arith) (omega arith))
      | inr whole ↦ rw whole (omega arith, omega arith, omega arith)
    ]

chunk_spans-Covers :
    (content : String) (fuel start covered : ℕ)
    → char_count content ≤ fuel + start
    → start ≤ covered
    → covered ≤ start + chunk_overlap_chars
    → Covers covered (char_count content) (chunk_spans content fuel start)
unfolding chunk_spans
chunk_spans-Covers content zero start covered enough joined near = omega arith
chunk_spans-Covers content (suc fuel) start covered enough joined near =
    elim (Bool-cases (ltb start (char_count content))) [
      | inl inside ↦
          let bounds = chunk_end-IsChunkEnd content start (ground arith) in
          rw inside (
            joined,
            near,
            bounds,
            elim (Bool-cases (leb (char_count content) (chunk_end content start))) [
              | inl done ↦ rw done (ground arith)
              | inr more ↦ rw more (
                  chunk_spans-Covers content fuel
                    (max (chunk_end content start - chunk_overlap_chars) (start + 1))
                    (chunk_end content start) (omega arith) (omega arith) (omega arith))
            ],
          )
      | inr outside ↦ rw outside (ground arith)
    ]

-- The spans that the loop cuts out of a content, from 0 on, go on to its end: each begins at the end
-- of the one before it or at most 300 characters before that end, is neither empty nor longer than
-- 6000 characters, and stays inside the content. So the loop ends with nothing left out.
pub chunk_spans-all :
    (content : String) → Covers 0 (char_count content) (chunk_spans content (char_count content) 0)
chunk_spans-all content =
    chunk_spans-Covers content (char_count content) 0 0 (omega arith) (omega arith) (omega arith)
