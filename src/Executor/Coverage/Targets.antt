-- ===== src/Executor/Coverage/Targets.antt =====
-- The targets of a research stage have different keys, so that the initial map holds each of them.
use Prim.Native.Char.{code}
use Prim.Native.Nat.{◌<◌}
use Prim.Native.String as Str
use text.Mathlib.TextLemmas.{cons-append, append_cancel_left}
use mathlib.Core.Logic.{◌≢◌}
use vertical_ai_research_act.Prelude.{
  ℕ, suc, ◌≡◌, refl, sym, ap, ◌∙◌, String, ◌<>◌, false, some, List, [], ◌∷◌, ◌++◌, map, arith,
  contains, string_eq, ◌==◌, Distinct, All, Bool-cases, inl, inr, eq_of_==, contains-append,
  ==-refl,
}
use mathlib.Core.List.{append-nil, append_assoc, map-append}
use vertical_ai_research_act.Prelude.Dedupe.{Distinct-middle}
use text.Mathlib.TextEquality.{eq_iff}
use vertical_ai_research_act.Executor.Coverage.Entries.{find_entry-put_entry}
use vertical_ai_research_act.Prelude.Result.{Result, ok, raised, ◌>>=◌, returned_parts, ok_inj}
use vertical_ai_research_act.Text.{is_blank, strip}
use vertical_ai_research_act.Text.Decimal.{decimal, decimal_inj}
use vertical_ai_research_act.Domain.ResearchStage.{ResearchStageInput}
use vertical_ai_research_act.Executor.Enums.{
  ResearchCoverageTargetType, sub_question, comparison_candidate,
}
use vertical_ai_research_act.Executor.State.{
  EvidenceCoverageMap, target_keys, find_entry, put_entry,
}
use vertical_ai_research_act.Executor.Coverage.{
  EvidenceCoverageTarget, numbered_targets, targets_for, coverage_targets, put_targets, initial_map,
  initial_entry,
}

abbrev pub key_of : EvidenceCoverageTarget → String
key_of target = target.target_key

-- The first character of a key tells the type of its target.
abbrev first_code : String → ℕ
first_code Str.[] = 0
first_code (Str.◌∷◌ c s) = code c

abbrev Begins : ℕ → String → Type 0
Begins n key = first_code key ≡ n

sub_question-Begins : (s : String) → Begins 115 ("sub_question:" <> s)
sub_question-Begins s = ap first_code (cons-append _ "ub_question:" s)

comparison_candidate-Begins : (s : String) → Begins 99 ("comparison_candidate:" <> s)
comparison_candidate-Begins s = ap first_code (cons-append _ "omparison_candidate:" s)

not_among :
    (n : ℕ) (keys : List String) (key : String)
    → All (Begins n) keys
    → first_code key ≢ n
    → contains keys key ≡ false
not_among n [] key h d = refl
not_among n (k ∷ keys) key h d = elim (Bool-cases (key == k)) [
  | inl same ↦ absurd (d (ap first_code (eq_of_== same) ∙ h.0))
  | inr other ↦ rw other (not_among n keys key h.1 d)
]

Distinct-append :
    (n m : ℕ) (xs ys : List String)
    → n ≢ m
    → All (Begins n) xs
    → All (Begins m) ys
    → Distinct xs
    → Distinct ys
    → Distinct (xs ++ ys)
Distinct-append n m [] ys d hx hy dx dy = dy
Distinct-append n m (x ∷ xs) ys d hx hy dx dy = (
  rw (contains-append xs ys x) (rw dx.0 (not_among m ys x hy (λ e. d (sym hx.0 ∙ e)))),
  Distinct-append n m xs ys d hx.1 hy dx.1 dy,
)

module _ (type : ResearchCoverageTargetType) (prefix : String) where
  key_other : (i j : ℕ) → i < j → (prefix <> decimal i == prefix <> decimal j) ≡ false
  key_other i j h = elim (Bool-cases (prefix <> decimal i == prefix <> decimal j)) [
    | inl same ↦
        let e : i ≡ j =
          decimal_inj i j (append_cancel_left prefix (decimal i) (decimal j) (eq_of_== same)) in
        absurd (omega arith)
    | inr other ↦ other
  ]

  earlier_absent :
      (i index : ℕ) (texts : List String)
      → i < index
      → contains (map key_of (numbered_targets type prefix index texts)) (prefix <> decimal i)
        ≡ false
  unfolding numbered_targets
  earlier_absent i index [] h = refl
  earlier_absent i index (text ∷ texts) h = elim (Bool-cases (is_blank (strip text))) [
    | inl blank ↦ rw blank (earlier_absent i (suc index) texts (omega arith))
    | inr solid ↦
        rw solid (rw (key_other i index h) (earlier_absent i (suc index) texts (omega arith)))
  ]

  Distinct-numbered_targets :
      (index : ℕ) (texts : List String)
      → Distinct (map key_of (numbered_targets type prefix index texts))
  unfolding numbered_targets
  Distinct-numbered_targets index [] = tt
  Distinct-numbered_targets index (text ∷ texts) = elim (Bool-cases (is_blank (strip text))) [
    | inl blank ↦ rw blank (Distinct-numbered_targets (suc index) texts)
    | inr solid ↦ rw solid (
      earlier_absent index (suc index) texts (omega arith),
      Distinct-numbered_targets (suc index) texts,
    )
  ]

  numbered_targets-Begins :
      (n index : ℕ) (texts : List String)
      → ((s : String) → Begins n (prefix <> s))
      → All (Begins n) (map key_of (numbered_targets type prefix index texts))
  unfolding numbered_targets
  numbered_targets-Begins n index [] h = tt
  numbered_targets-Begins n index (text ∷ texts) h = elim (Bool-cases (is_blank (strip text))) [
    | inl blank ↦ rw blank (numbered_targets-Begins n (suc index) texts h)
    | inr solid ↦ rw solid (h (decimal index), numbered_targets-Begins n (suc index) texts h)
  ]

target_keys-put_new :
    (entries : EvidenceCoverageMap) (target : EvidenceCoverageTarget)
    → contains (target_keys entries) target.target_key ≡ false
    → target_keys (put_entry entries target.target_key (initial_entry target))
      ≡ target_keys entries ++ target.target_key ∷ []
unfolding put_entry
target_keys-put_new [] target h = refl
target_keys-put_new ((k, e) ∷ entries) target h =
    let other : (k == target.target_key) ≡ false =
      ground (arith, eq_iff k target.target_key, eq_iff target.target_key k) in
    rw other (ap (λ keys. k ∷ keys) (target_keys-put_new entries target (ground arith)))

target_keys-put_targets :
    (entries : EvidenceCoverageMap) (targets : List EvidenceCoverageTarget)
    → Distinct (target_keys entries ++ map key_of targets)
    → target_keys (put_targets entries targets) ≡ target_keys entries ++ map key_of targets
unfolding put_targets
target_keys-put_targets entries [] d = sym (append-nil (target_keys entries))
target_keys-put_targets entries (target ∷ targets) d =
    let e =
      target_keys-put_new entries target
        (Distinct-middle (target_keys entries) target.target_key (map key_of targets) d) in
    let assoc = append_assoc (target_keys entries) (target.target_key ∷ []) (map key_of targets) in
    target_keys-put_targets (put_entry entries target.target_key (initial_entry target)) targets
      (rw e (rw assoc d))
    ∙ ap (λ keys. keys ++ map key_of targets) e
    ∙ assoc

find_entry-put_targets :
    (entries : EvidenceCoverageMap) (targets : List EvidenceCoverageTarget) (key : String)
    → contains (map key_of targets) key ≡ false
    → find_entry (put_targets entries targets) key ≡ find_entry entries key
unfolding put_targets
find_entry-put_targets entries [] key h = refl
find_entry-put_targets entries (target ∷ targets) key h =
    let k = target.target_key in
    let other : (k == key) ≡ false = ground (arith, eq_iff k key, eq_iff key k) in
    find_entry-put_targets (put_entry entries k (initial_entry target)) targets key (ground arith)
    ∙ find_entry-put_entry entries k key (initial_entry target)
    ∙ rw other refl

abbrev pub IsInitial : EvidenceCoverageMap → EvidenceCoverageTarget → Type 0
IsInitial entries target = find_entry entries target.target_key ≡ some (initial_entry target)

put_targets-IsInitial :
    (entries : EvidenceCoverageMap) (targets : List EvidenceCoverageTarget)
    → Distinct (map key_of targets)
    → All (IsInitial (put_targets entries targets)) targets
unfolding put_targets
put_targets-IsInitial entries [] d = tt
put_targets-IsInitial entries (target ∷ targets) d =
    let next = put_entry entries target.target_key (initial_entry target) in
    (
      find_entry-put_targets next targets target.target_key d.0
          ∙ find_entry-put_entry entries target.target_key target.target_key (initial_entry target)
          ∙ rw (==-refl target.target_key) refl,
      put_targets-IsInitial next targets d.1,
    )

Distinct-targets_for :
    (stage_input : ResearchStageInput) (goal : String)
    → Distinct (map key_of (targets_for stage_input goal))
unfolding targets_for
Distinct-targets_for stage_input goal =
    let texts = stage_input.sub_questions in
    let names = stage_input.comparison_candidates in
    let questions = numbered_targets sub_question "sub_question:" 1 texts in
    let candidates = numbered_targets comparison_candidate "comparison_candidate:" 1 names in
    let begin_q =
      numbered_targets-Begins sub_question "sub_question:" 115 1 texts sub_question-Begins in
    let begin_c =
      numbered_targets-Begins comparison_candidate "comparison_candidate:" 99 1 names
        comparison_candidate-Begins in
    rw (map-append key_of questions candidates) (
      rw (contains-append (map key_of questions) (map key_of candidates) "objective") (
          rw (not_among 115 (map key_of questions) "objective" begin_q (λ e. omega arith))
            (not_among 99 (map key_of candidates) "objective" begin_c (λ e. omega arith))),
      Distinct-append 115 99 (map key_of questions) (map key_of candidates) (λ e. omega arith)
          begin_q begin_c (Distinct-numbered_targets sub_question "sub_question:" 1 texts)
          (Distinct-numbered_targets comparison_candidate "comparison_candidate:" 1 names),
    )

returned_targets-Distinct :
    (stage_input : ResearchStageInput) (goal : Result String)
    (targets : List EvidenceCoverageTarget)
    → (goal >>= λ text. ok (targets_for stage_input text)) ≡ ok targets
    → Distinct (map key_of targets)
returned_targets-Distinct stage_input (ok goal) targets h =
    let e : targets_for stage_input goal ≡ targets = ground arith in
    rw (sym e) (Distinct-targets_for stage_input goal)
returned_targets-Distinct stage_input (raised e) targets h = cc

-- If the targets of a stage can be stated, then the initial map is returned, its keys are those of
-- the targets in their order, no key stands twice, and the entry of each target is not covered, with
-- no evidence and the target's type and text.
pub initial_map_complete :
    (stage_input : ResearchStageInput) (targets : List EvidenceCoverageTarget)
    → coverage_targets stage_input ≡ ok targets
    → (coverage : EvidenceCoverageMap) × (initial_map stage_input ≡ ok coverage)
      × (target_keys coverage ≡ map key_of targets)
      × Distinct (map key_of targets)
      × All (IsInitial coverage) targets
unfolding initial_map coverage_targets
initial_map_complete stage_input targets h =
    let d = returned_targets-Distinct stage_input _ targets h in
    (
      put_targets [] targets,
      rw h,
      target_keys-put_targets [] targets d,
      d,
      put_targets-IsInitial [] targets d,
    )

-- The keys of an initial map are distinct.
pub initial_map-Distinct :
    (stage_input : ResearchStageInput) (coverage : EvidenceCoverageMap)
    → initial_map stage_input ≡ ok coverage
    → Distinct (target_keys coverage)
unfolding initial_map
initial_map-Distinct stage_input coverage h =
    let (targets, t, h') =
      returned_parts (coverage_targets stage_input) (λ ts. ok (put_targets [] ts)) coverage h in
    let (made, built, keys, distinct, initial) = initial_map_complete stage_input targets t in
    ok_inj (sym built ∙ h) (λ c. Distinct (target_keys c)) (rw keys distinct)
