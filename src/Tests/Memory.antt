-- ===== src/Tests/Memory.antt =====
-- A run of the lifecycle of an action, with a case folding that leaves a text as it is.
use vertical_ai_research_act.Prelude.{◌≡◌, ◌⊎◌, refl, String, true}
use vertical_ai_research_act.Memory.ActionStatus.{
  here, step, is_legal_action_status_transition, IsForward, Reaches-IsForward,
}

abbrev folded : String → String
folded status = status

abbrev first : String
first = "todo"

abbrev last : String
last = "done"

started : is_legal_action_status_transition folded first " in_progress" ≡ true
unfolding is_legal_action_status_transition
started = refl

finished : is_legal_action_status_transition folded " in_progress" last ≡ true
unfolding is_legal_action_status_transition
finished = refl

Reaches-IsForward_example : (first ≡ last) ⊎ IsForward folded first last
Reaches-IsForward_example = Reaches-IsForward folded first last (step (step here started) finished)
