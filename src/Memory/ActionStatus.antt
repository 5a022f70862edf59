-- ===== src/Memory/ActionStatus.antt =====
-- The lifecycle of an action in memory (app/services/memory/_action_state.py). `casefold` is
-- `str.casefold`.
use vertical_ai_research_act.Prelude.{
  ◌≡◌, ◌≢◌, ◌⊎◌, refl, String, Bool, true, false, List, [], ◌∷◌, contains, string_eq, ◌==◌,
  Bool-cases, inl, inr, if◌then◌else◌,
}
use vertical_ai_research_act.Text.{strip}

-- `_ALLOWED_ACTION_STATUS_TRANSITIONS.get(status, frozenset())`
unfoldable pub allowed_transitions : String → List String
allowed_transitions status =
    if status == "todo"
    then "in_progress" ∷ "blocked" ∷ "done" ∷ "cancelled" ∷ []
    else if status == "in_progress"
    then "blocked" ∷ "done" ∷ "cancelled" ∷ []
    else if status == "blocked"
    then "in_progress" ∷ "done" ∷ "cancelled" ∷ []
    else []

nothing_becomes_todo : (current : String) → contains (allowed_transitions current) "todo" ≡ false
unfolding allowed_transitions
nothing_becomes_todo current = elim (Bool-cases (current == "todo")) [
  | inl e ↦ rw e refl
  | inr not_todo ↦ rw not_todo (elim (Bool-cases (current == "in_progress")) [
    | inl e ↦ rw e refl
    | inr not_started ↦ rw not_started (elim (Bool-cases (current == "blocked")) [
      | inl e ↦ rw e refl
      | inr not_blocked ↦ rw not_blocked refl
    ])
  ])
]

nothing_after_done : (next : String) → contains (allowed_transitions "done") next ≡ false
unfolding allowed_transitions
nothing_after_done next = refl

nothing_after_cancelled : (next : String) → contains (allowed_transitions "cancelled") next ≡ false
unfolding allowed_transitions
nothing_after_cancelled next = refl

allowed_step :
    (current next : String)
    → contains (allowed_transitions current) next ≡ true
    → (next ≢ "todo") × (current ≢ "done") × (current ≢ "cancelled")
allowed_step current next h = (
  (λ e. let never = nothing_becomes_todo current in cc),
  (λ e. let never = nothing_after_done next in cc),
  (λ e. let never = nothing_after_cancelled next in cc),
)

module _ (casefold : String → String) where
  -- `status.strip().casefold()`
  unfoldable pub normalized_status : String → String
  unfolding strip
  normalized_status status = casefold (strip status)

  unfoldable pub is_legal_action_status_transition : String → String → Bool
  unfolding normalized_status allowed_transitions
  is_legal_action_status_transition current_status next_status =
      contains (allowed_transitions (normalized_status current_status))
        (normalized_status next_status)

  -- A sequence of legal steps.
  pub data Reaches (current : String) : String → Type 0 where
    here : Reaches current current
    step :
        {middle next : String}
        → Reaches current middle
        → is_legal_action_status_transition middle next ≡ true
        → Reaches current next

  legal_step :
      (current next : String)
      → is_legal_action_status_transition current next ≡ true
      → (normalized_status next ≢ "todo")
        × (normalized_status current ≢ "done")
        × (normalized_status current ≢ "cancelled")
  unfolding is_legal_action_status_transition
  legal_step current next h = allowed_step (normalized_status current) (normalized_status next) h

  -- From a status that is left to one that is entered.
  abbrev pub IsForward : String → String → Type 0
  IsForward current next =
      (normalized_status next ≢ "todo")
      × (normalized_status current ≢ "done")
      × (normalized_status current ≢ "cancelled")

  IsForward-after :
      (current middle next : String)
      → (current ≡ middle) ⊎ IsForward current middle
      → IsForward middle next
      → IsForward current next
  IsForward-after current middle next (inl same) (fresh, not_done, not_cancelled) =
      (fresh, rw same not_done, rw same not_cancelled)
  IsForward-after current middle next (inr (entered, not_done, not_cancelled))
        (fresh, later, last) =
      (fresh, not_done, not_cancelled)

  -- Whatever the case folding is: if legal transitions lead from one status to another, then the two
  -- are the same text, or the first is neither `done` nor `cancelled` and the second is not `todo`.
  pub Reaches-IsForward :
      (current next : String) → Reaches current next → (current ≡ next) ⊎ IsForward current next
  Reaches-IsForward current next here = inl refl
  Reaches-IsForward current next (step {middle} before legal) = inr (
      IsForward-after current middle next (Reaches-IsForward current middle before)
        (legal_step middle next legal))
