-- ===== src/Executor/RetrievalHistory/Window.antt =====
-- The history is a window on all attempts, and failed attempts are never called useful.
use vertical_ai_research_act.Prelude.{
  ℕ, ◌-◌, ◌≤◌, ◌≡◌, refl, ap, String, true, Option, none, some, List, [], ◌∷◌, ◌++◌, length, drop,
  length-drop, arith, All, All-append,
}
use vertical_ai_research_act.Prelude.Result.{ok}
use vertical_ai_research_act.Domain.Enums.{FamilyName, is_failed_or_empty, not_useful}
use vertical_ai_research_act.Domain.Retrieval.{RecentRetrievalAttempt}
use vertical_ai_research_act.Domain.Retrieval.AttemptTrace.{RetrievalAttemptTrace}
use vertical_ai_research_act.Domain.Requests.{ToolExecutionLayerResult}
use vertical_ai_research_act.Executor.Payloads.{LlmNextEvidenceNeedPayload}
use vertical_ai_research_act.Executor.State.{
  ResearchExecutorIterationState, ResearchExecutorRunState, require_current_iteration,
}
use vertical_ai_research_act.Executor.RetrievalHistory.{
  max_recent_attempts, attempt_utility, compress, compressed_attempts, new_attempts, append_recent,
  record_completed_iteration,
}

-- The last 30 of a list.
abbrev pub last_attempts : List RecentRetrievalAttempt → List RecentRetrievalAttempt
last_attempts attempts = drop (length attempts - max_recent_attempts) attempts

append_nil : (xs : List RecentRetrievalAttempt) → xs ++ [] ≡ xs
append_nil [] = refl
append_nil (x ∷ xs) = ap (λ r. x ∷ r) (append_nil xs)

drop_none : (n : ℕ) (xs : List RecentRetrievalAttempt) → n ≡ 0 → drop n xs ≡ xs
drop_none n xs h = rw h

module _ (fingerprint : String → String) where
  append_recent-last :
      (recent added : List RecentRetrievalAttempt)
      → length recent ≤ max_recent_attempts
      → append_recent fingerprint recent added ≡ last_attempts (recent ++ added)
  unfolding append_recent
  append_recent-last recent [] h =
      rw (append_nil recent)
        (rw (drop_none (length recent - max_recent_attempts) recent (omega arith)))
  append_recent-last recent (a ∷ added) h = refl

  length-last_attempts :
      (attempts : List RecentRetrievalAttempt)
      → length (last_attempts attempts) ≤ max_recent_attempts
  length-last_attempts attempts =
      omega (arith, length-drop (length attempts - max_recent_attempts) attempts)

  -- Adding attempts keeps the history within its bound.
  pub length-append_recent :
      (recent added : List RecentRetrievalAttempt)
      → length recent ≤ max_recent_attempts
      → length (append_recent fingerprint recent added) ≤ max_recent_attempts
  length-append_recent recent added h =
      rw (append_recent-last recent added h) (length-last_attempts (recent ++ added))

  -- If an iteration is under way and the history has at most 30 attempts, recording the iteration
  -- returns the same state but for its history, which is the last 30 of the old attempts and the new
  -- ones in this order, and so again has at most 30.
  pub record_completed_iteration-last :
      (state : ResearchExecutorRunState) (iteration : ResearchExecutorIterationState)
      → state.current_iteration ≡ some iteration
      → length state.recent_retrieval_attempts ≤ max_recent_attempts
      → let history = last_attempts (
          state.recent_retrieval_attempts
          ++ new_attempts fingerprint iteration state.next_evidence_need) in
        (record_completed_iteration fingerprint state
          ≡ ok (record state { recent_retrieval_attempts = history }))
        × (length history ≤ max_recent_attempts)
  unfolding record_completed_iteration require_current_iteration
  record_completed_iteration-last state iteration h le =
      let added = new_attempts fingerprint iteration state.next_evidence_need in
      (
        rw h (rw (append_recent-last state.recent_retrieval_attempts added le) refl),
        length-last_attempts (state.recent_retrieval_attempts ++ added),
      )

abbrev pub need_key : Option LlmNextEvidenceNeedPayload → Option String
need_key none = none
need_key (some need) = some need.coverage_target_key

-- What holds of each attempt that an iteration adds, for the need that it served.
pub record IsRecorded (need : Option LlmNextEvidenceNeedPayload) (attempt : RecentRetrievalAttempt)
    : Type 0 where
  pub key_kept : attempt.coverage_target_key ≡ need_key need
  pub failed_not_useful :
      is_failed_or_empty attempt.result_status ≡ true → attempt.result_utility ≡ not_useful

module _ (fingerprint : String → String) (iteration : ResearchExecutorIterationState) where
  compress-IsRecorded :
      (need : LlmNextEvidenceNeedPayload) (result : ToolExecutionLayerResult)
      (attempt : RetrievalAttemptTrace) (family : Option FamilyName) (problem : Option String)
      → All
          (IsRecorded (some need))
          (compress fingerprint need.coverage_target_key result iteration attempt family problem)
  unfolding compress attempt_utility
  compress-IsRecorded need result attempt (some family) (some problem) =
      (record { key_kept = refl; failed_not_useful = λ f. rw f }, tt)
  compress-IsRecorded need result attempt none problem = tt
  compress-IsRecorded need result attempt (some family) none = tt

  compressed_attempts-IsRecorded :
      (need : LlmNextEvidenceNeedPayload) (result : ToolExecutionLayerResult)
      (attempts : List RetrievalAttemptTrace)
      → All
          (IsRecorded (some need))
          (compressed_attempts fingerprint need.coverage_target_key result iteration attempts)
  unfolding compressed_attempts
  compressed_attempts-IsRecorded need result [] = tt
  compressed_attempts-IsRecorded need result (attempt ∷ attempts) =
      All-append (IsRecorded (some need)) _ _ (compress-IsRecorded need result attempt _ _)
        (compressed_attempts-IsRecorded need result attempts)

  added-IsRecorded :
      (need : Option LlmNextEvidenceNeedPayload) (latest : Option ToolExecutionLayerResult)
      → iteration.tool_execution_result ≡ latest
      → All (IsRecorded need) (new_attempts fingerprint iteration need)
  unfolding new_attempts
  added-IsRecorded none latest h = tt
  added-IsRecorded (some evidence) none h = rw h tt
  added-IsRecorded (some evidence) (some result) h =
      rw h (compressed_attempts-IsRecorded evidence result result.retrieval_trace.attempts)

  -- Each attempt that an iteration adds has the coverage target of the evidence need, and is not
  -- useful if it failed or had no result.
  pub new_attempts-IsRecorded :
      (need : Option LlmNextEvidenceNeedPayload)
      → All (IsRecorded need) (new_attempts fingerprint iteration need)
  new_attempts-IsRecorded need = added-IsRecorded need iteration.tool_execution_result refl
