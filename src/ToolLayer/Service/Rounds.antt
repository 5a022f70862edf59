-- ===== src/ToolLayer/Service/Rounds.antt =====
-- The rounds of `execute`: how it runs from its first state to the round that ends it, and that it
-- gets there.
use vertical_ai_research_act.Prelude.{
  ℕ, zero, suc, ◌+◌, ◌*◌, ◌≤◌, ◌<◌, ◌≡◌, refl, Option, some, List, length, arith,
}
use vertical_ai_research_act.Prelude.Result.{Result, ok, raised}
use vertical_ai_research_act.Prelude.Act.{Returned}
use vertical_ai_research_act.Domain.Enums.{FamilyName}
use vertical_ai_research_act.Domain.Requests.{ToolExecutionLayerRequest, ToolExecutionLayerResult}
use vertical_ai_research_act.ToolLayer.Service.{
  Next, again, finish, enough_rounds, normalize_request, effective_available_families, round,
  follow, run_loop, execute,
}
use vertical_ai_research_act.ToolLayer.Service.State.{
  Services, ToolExecutionLayerRunState, create_execution_state,
}
use vertical_ai_research_act.ToolLayer.Service.Budget.{
  left_for, fallback_count, IsOnBudget, retries-bounded,
}
use vertical_ai_research_act.ToolLayer.Service.Progress.{
  IsReport, IsNext, round-IsNext, create_execution_state-IsOnBudget,
}

module _ {W : Type 0} (services : Services W) (request : ToolExecutionLayerRequest)
    (available : List FamilyName) (origin : W) where
  -- The states and worlds in which the rounds begin, by the number of rounds before.
  pub data Reached : ℕ → ToolExecutionLayerRunState → W → Type 0 where
    begin : Reached 0 (create_execution_state request) origin
    next :
        {n : ℕ} {before after : ToolExecutionLayerRunState} {w w' : W}
        → Reached n before w
        → round services request available before w ≡ (ok (again after), w')
        → Reached (suc n) after w'

  -- How the last round answers, for what the loop returns.
  abbrev pub answer_of : Result ToolExecutionLayerResult → Result Next
  answer_of (ok result) = ok (finish result)
  answer_of (raised e) = raised e

  -- What the loop returns is the answer of its last round. Up to there the counters of the state have
  -- kept to the budget, family by family and in total.
  pub record IsRun (r : Result ToolExecutionLayerResult × W) : Type 0 where
    pub rounds : ℕ
    pub before : ToolExecutionLayerRunState
    pub world : W
    pub reached : Reached rounds before world
    pub last : round services request available before world ≡ (answer_of r.0, r.1)
    pub few_rounds : rounds < enough_rounds request
    pub family_retries : (f : FamilyName) → before.retry_counts_by_family f ≤ request.retry_budget
    pub all_retries : before.retry_count ≤ 2 * request.retry_budget
    pub recoveries :
        before.recovery_attempt_count ≡ before.retry_count + fallback_count before.fallback_applied
    pub traces : length before.attempts ≤ before.recovery_attempt_count

  -- The loop has returned, after a run, and what it returned reports a state within the budget.
  abbrev HasReturned : Option (Result ToolExecutionLayerResult × W) → Type 0
  HasReturned o =
      (r : Result ToolExecutionLayerResult × W) × (o ≡ some r)
      × IsRun r
      × Returned (IsReport services request) r.0

  IsRun-of :
      (n : ℕ) (state : ToolExecutionLayerRunState) (w : W) (r : Result ToolExecutionLayerResult × W)
      → Reached n state w
      → IsOnBudget request.retry_budget 0 state.retry_context state
      → n < enough_rounds request
      → round services request available state w ≡ (answer_of r.0, r.1)
      → IsRun r
  IsRun-of n state w r reached h le last = record {
    rounds = n;
    before = state;
    world = w;
    reached = reached;
    last = last;
    few_rounds = le;
    family_retries = h.counts_within;
    all_retries =
        retries-bounded request.retry_budget state.retry_count state.recovery_attempt_count _
          state.fallback_applied h.recovered h.spent;
    recoveries = h.recovered;
    traces = omega (arith, h.traced);
  }

  follow-HasReturned :
      (rest : ToolExecutionLayerRunState → W → Option (Result ToolExecutionLayerResult × W))
      (limit n : ℕ) (state : ToolExecutionLayerRunState) (w : W)
      → Reached n state w
      → IsOnBudget request.retry_budget 0 state.retry_context state
      → n < enough_rounds request
      → ((after : ToolExecutionLayerRunState) (w' : W)
          → Reached (suc n) after w'
          → IsOnBudget request.retry_budget 0 after.retry_context after
          → left_for request.retry_budget after.retry_context after < limit
          → HasReturned (rest after w'))
      → (end : Result Next × W) → round services request available state w ≡ end
      → Returned (IsNext services request limit) end.0
      → HasReturned (follow services rest end)
  unfolding follow
  follow-HasReturned rest limit n state w reached h le k (raised e, w') eq report =
      ((raised e, w'), refl, IsRun-of n state w (raised e, w') reached h le eq, tt)
  follow-HasReturned rest limit n state w reached h le k (ok (finish result), w') eq report =
      ((ok result, w'), refl, IsRun-of n state w (ok result, w') reached h le eq, report)
  follow-HasReturned rest limit n state w reached h le k (ok (again after), w') eq report =
      k after w' (next reached eq) report.0 report.1

  run_loop-HasReturned :
      (fuel n : ℕ) (state : ToolExecutionLayerRunState) (w : W)
      → Reached n state w
      → IsOnBudget request.retry_budget 0 state.retry_context state
      → n + fuel ≤ enough_rounds request
      → left_for request.retry_budget state.retry_context state < fuel
      → HasReturned (run_loop services request available fuel state w)
  unfolding run_loop
  run_loop-HasReturned zero n state w reached h le lt = absurd (omega arith)
  run_loop-HasReturned (suc fuel) n state w reached h le lt =
      follow-HasReturned (run_loop services request available fuel) _ n state w reached h
        (omega arith)
        (λ after w' later kept less.
          run_loop-HasReturned fuel (suc n) after w' later kept (omega arith) (omega arith))
        (round services request available state w) refl
        ((round-IsNext services request available state h).at w)

execute-HasReturned :
    {W : Type 0} (services : Services W) (request : ToolExecutionLayerRequest) (w : W)
    → let n = normalize_request request in
      (r : Result ToolExecutionLayerResult × W) × (execute services request w ≡ some r)
      × IsRun services n (effective_available_families services n) w r
      × Returned (IsReport services n) r.0
unfolding execute
execute-HasReturned services request w =
    let n = normalize_request request in
    run_loop-HasReturned services n (effective_available_families services n) w (enough_rounds n) 0
      (create_execution_state n) w begin (create_execution_state-IsOnBudget n) (omega arith)
      (omega arith)

-- `execute` returns, whatever its collaborators do: the rounds that it runs, from the state that it
-- creates and each from the state that the one before left, are at most 2 * (retry_budget + 1), and
-- the last one gives the result or the exception. In the state in which the last round begins, each
-- family has been retried at most retry_budget times and all together at most twice as often, the
-- recoveries are these retries and the fallback where there was one, and there are no more traces than
-- recoveries.
pub execute-returns :
    {W : Type 0} (services : Services W) (request : ToolExecutionLayerRequest) (w : W)
    → let n = normalize_request request in
      (r : Result ToolExecutionLayerResult × W) × (execute services request w ≡ some r)
      × IsRun services n (effective_available_families services n) w r
execute-returns services request w =
    let (r, returned, run, report) = execute-HasReturned services request w in (r, returned, run)

-- What `execute` returns reports a state within the budget.
pub execute-reports :
    {W : Type 0} (services : Services W) (request : ToolExecutionLayerRequest) (w : W)
    → (r : Result ToolExecutionLayerResult × W) × (execute services request w ≡ some r)
      × Returned (IsReport services (normalize_request request)) r.0
execute-reports services request w =
    let (r, returned, run, report) = execute-HasReturned services request w in (r, returned, report)
