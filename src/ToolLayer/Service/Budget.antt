-- ===== src/ToolLayer/Service/Budget.antt =====
-- The retry budget: what a state may still spend, and how an attempt and its recovery spend it.
use vertical_ai_research_act.Prelude.{
  ℕ, suc, ◌+◌, ◌-◌, ◌*◌, ◌≤◌, ◌≡◌, refl, String, Bool, true, false, Option, none, some, List, [],
  ◌∷◌, ◌++◌, length, arith,
}
use vertical_ai_research_act.Domain.Enums.{FamilyName, family_eq}
use vertical_ai_research_act.Domain.Value.{Dict}
use vertical_ai_research_act.Domain.Families.{BaseFamilyExecutionResult}
use vertical_ai_research_act.Domain.Requests.{
  RetrievalQueryGenerationResult, RequestCompletionEvaluationResult,
}
use vertical_ai_research_act.ToolLayer.Service.State.{Services, ToolExecutionLayerRunState}
use vertical_ai_research_act.ToolLayer.Service.Record.{record_present}
use vertical_ai_research_act.ToolLayer.Service.Frame.{IsFrame}

-- The retries that the family of the next attempt has left.
abbrev pub retries_left :
    ℕ → (FamilyName → ℕ) → Option (FamilyName × RetrievalQueryGenerationResult) → ℕ
retries_left budget counts none = budget
retries_left budget counts (some (family, query)) = budget - counts family

-- The fallback itself and the retries of the family behind it.
abbrev pub fallback_left : ℕ → Bool → ℕ
fallback_left budget true = 0
fallback_left budget false = suc budget

-- How many recoveries are left before the attempt that `context` is scheduled for.
abbrev pub left_for :
    ℕ → Option (FamilyName × RetrievalQueryGenerationResult) → ToolExecutionLayerRunState → ℕ
left_for budget context state =
    retries_left budget state.retry_counts_by_family context
    + fallback_left budget state.fallback_applied

abbrev pub fallback_count : Bool → ℕ
fallback_count true = 1
fallback_count false = 0

-- The loop's invariant; `slack` is 1 between the trace of an attempt and its recovery.
pub record IsOnBudget (budget slack : ℕ)
    (context : Option (FamilyName × RetrievalQueryGenerationResult))
    (state : ToolExecutionLayerRunState) : Type 0 where
  pub counts_within : (f : FamilyName) → state.retry_counts_by_family f ≤ budget
  pub recovered :
      state.recovery_attempt_count ≡ state.retry_count + fallback_count state.fallback_applied
  pub traced : length state.attempts ≤ state.recovery_attempt_count + slack
  pub spent : state.recovery_attempt_count + left_for budget context state ≤ 2 * budget + 1

-- What a request leaves behind.
pub record IsWithinBudget (budget : ℕ) (state : ToolExecutionLayerRunState) : Type 0 where
  pub counts_bounded : (f : FamilyName) → state.retry_counts_by_family f ≤ budget
  pub retries_bounded : state.retry_count ≤ 2 * budget
  pub recoveries_counted :
      state.recovery_attempt_count ≡ state.retry_count + fallback_count state.fallback_applied
  pub attempts_bounded : length state.attempts ≤ state.recovery_attempt_count + 1

pub retries-bounded :
    (budget retries recoveries other : ℕ) (applied : Bool)
    → recoveries ≡ retries + fallback_count applied
    → recoveries + (other + fallback_left budget applied) ≤ 2 * budget + 1
    → retries ≤ 2 * budget
retries-bounded budget retries recoveries other true p q = omega arith
retries-bounded budget retries recoveries other false p q = omega arith

-- The part that was kept for the fallback pays for it.
pub unused-fallback :
    (budget recoveries other : ℕ) (applied : Bool)
    → applied ≡ false
    → recoveries + (other + fallback_left budget applied) ≤ 2 * budget + 1
    → (recoveries + 1) + (budget + 0) ≤ 2 * budget + 1
unused-fallback budget recoveries other true p q = cc
unused-fallback budget recoveries other false p q = omega arith

pub IsWithinBudget-of :
    (budget slack : ℕ) (context : Option (FamilyName × RetrievalQueryGenerationResult))
    (state : ToolExecutionLayerRunState)
    → slack ≤ 1
    → IsOnBudget budget slack context state
    → IsWithinBudget budget state
IsWithinBudget-of budget slack context state le h = record {
  counts_bounded = h.counts_within;
  retries_bounded =
      retries-bounded budget state.retry_count state.recovery_attempt_count _ state.fallback_applied
        h.recovered h.spent;
  recoveries_counted = h.recovered;
  attempts_bounded = omega arith;
}

-- The invariant speaks only of what an attempt leaves alone.
pub IsOnBudget-frame :
    (budget : ℕ) (context : Option (FamilyName × RetrievalQueryGenerationResult))
    (before after : ToolExecutionLayerRunState)
    → IsFrame before after
    → IsOnBudget budget 0 context before
    → IsOnBudget budget 0 context after
IsOnBudget-frame budget context before after f h = record {
  counts_within = rw f.counts_same h.counts_within;
  recovered = rw (f.recoveries_same, f.retries_same, f.fallback_same) h.recovered;
  traced = rw (f.attempts_same, f.recoveries_same) h.traced;
  spent = rw (f.recoveries_same, f.counts_same, f.fallback_same) h.spent;
}

pub left_for-frame :
    (budget : ℕ) (context : Option (FamilyName × RetrievalQueryGenerationResult))
    (before after : ToolExecutionLayerRunState)
    → IsFrame before after
    → left_for budget context after ≡ left_for budget context before
left_for-frame budget context before after f = rw (f.counts_same, f.fallback_same)

pub IsOnBudget-slack :
    (budget : ℕ) (context : Option (FamilyName × RetrievalQueryGenerationResult))
    (state : ToolExecutionLayerRunState)
    → IsOnBudget budget 0 context state
    → IsOnBudget budget 1 context state
IsOnBudget-slack budget context state h = record {
  counts_within = h.counts_within;
  recovered = h.recovered;
  traced = omega arith;
  spent = h.spent;
}

length-last : (d : Dict) (ds : List Dict) → length (ds ++ d ∷ []) ≡ length ds + 1
length-last d [] = refl
length-last d (e ∷ ds) = let h = length-last d ds in omega arith

IsOnBudget-recorded :
    (budget : ℕ) (context : Option (FamilyName × RetrievalQueryGenerationResult))
    (state : ToolExecutionLayerRunState) (d : Dict)
    → IsOnBudget budget 0 context state
    → IsOnBudget budget 1 context (record state { attempts = state.attempts ++ d ∷ [] })
IsOnBudget-recorded budget context state d h = record {
  counts_within = h.counts_within;
  recovered = h.recovered;
  traced = rw (length-last d state.attempts) (omega arith);
  spent = h.spent;
}

pub record_present-IsOnBudget :
    {W : Type 0} (services : Services W) (budget : ℕ)
    (context : Option (FamilyName × RetrievalQueryGenerationResult))
    (state : ToolExecutionLayerRunState) (family : Option FamilyName)
    (query : Option RetrievalQueryGenerationResult) (result : Option BaseFamilyExecutionResult)
    (evaluation : Option RequestCompletionEvaluationResult) (reason : Option String)
    → IsOnBudget budget 0 context state
    → IsOnBudget budget 1 context
        (record_present services state family query result evaluation reason)
unfolding record_present
record_present-IsOnBudget services budget context state (some f) (some q) (some r) (some e) reason
      h =
    IsOnBudget-recorded budget context state _ h
record_present-IsOnBudget services budget context state none query result evaluation reason h =
    IsOnBudget-slack budget context state h
record_present-IsOnBudget services budget context state (some f) none result evaluation reason h =
    IsOnBudget-slack budget context state h
record_present-IsOnBudget services budget context state (some f) (some q) none evaluation reason h =
    IsOnBudget-slack budget context state h
record_present-IsOnBudget services budget context state (some f) (some q) (some r) none reason h =
    IsOnBudget-slack budget context state h
