-- ===== src/Lib.antt =====
-- A model of the research executor and of the tool execution layer of the research action agent, with
-- the theorems about them; and of three parts around them: the web search family, which the layer
-- runs, the selection of material for evidence, and the lifecycle of an action in memory.
--
-- The executor (app/services/executor) runs a bounded loop for one research stage. An iteration has
-- the state assessed, acquires material through the tool execution layer and has it processed into
-- evidence, records what it covers, refines the findings, and evaluates whether to go on.
--
-- The layer (app/services/tool_execution_layer) answers one retrieval request. The service selects a
-- retrieval family, makes or takes a query, runs the family's service, has the outcome evaluated,
-- and then completes, retries the same family, or falls back once to another family.
--
-- The parts and their files:
--   Prelude         Boolean tests, lists, integers, exceptions and actions over a world.
--   Text            app/common/utils/text.py: strip_or_none, unique_non_empty_strings and
--                   normalize_whitespace_or_none.
--   Observability   sanitize_sensitive_text of app/common/observability.py.
--   Domain          app/domain: Enums (enums), Value (JSON-like values and dictionaries in insertion
--                   order), Retrieval (models/retrieval and models/source, with to_legacy_dict and
--                   the validators that read legacy mappings as model_validate), Families
--                   (models/families), Requests (models/tool_execution_layer).
--   ToolLayer.Family      _normalization.py.
--   ToolLayer.Selection   family_selection_service.py; Ranking has the score tables and the order.
--   ToolLayer.Completion  request_completion_evaluation_service.py; Verdict has the tests and the
--                         results, Outcome the decision on a failed execution.
--   ToolLayer.Service     tool_execution_layer_service.py; State is its run state and attempt outcome,
--                         Families the execution of a family, Readiness and Attempt one attempt,
--                         Recovery what follows an evaluation, Record the traces, Report the result;
--                         Frame, Budget, Spending, Progress, Rounds, Counters, Reporting and Refusal
--                         are proofs.
--   Executor        app/services/executor. Enums, Payloads (the language model's answers) and State
--                   are its data (enums, models), Support its shared readings, Collaborators the
--                   services that it awaits.
--   Executor.Coverage     research_coverage_tracker.py; Validation has validated_map.
--   Executor.Assessor     research_state_assessor.py.
--   Executor.Acquirer     research_material_acquirer.py.
--   Executor.Outcome      iteration_outcome_evaluator.py; Rules has the decisions.
--   Executor.Findings     intermediate_findings_refiner.py.
--   Executor.StageResult  research_stage_result_builder.py; Evidence has references and summary,
--                         Questions the open questions.
--   Executor.RetrievalHistory  research_retrieval_history_tracker.py: what a research run remembers
--                         of its requests to the layer.
--   Executor.Loop         research_executor_service.py; Inputs has what it builds for the others.
--                         The other modules below these are proofs.
--   Evidence        app/services/evidence/evidence_material_selector.py: Chunks cuts the material,
--                   Ranking ranks the chunks by words, Vectors by embeddings, Selector is select.
--   Families.WebSearch    app/services/families/web_search_family_service.py and _selection.py.
--   Memory.ActionStatus   app/services/memory/_action_state.py.
--   Tests           inputs and runs.
--
-- A Python method keeps its name without the leading underscore. An object that a method changes in
-- place is passed in and returned. The collaborators of the service are a record of actions
-- `W -> Result A * W` over any world `W`: a call may change the world, return or raise, and its
-- answers are not restricted. An exception is a value of `Result` and ends the request, except
-- where the service catches it. `retry_counts_by_family` is a function that is 0 where no key is.
--
-- `execute` loops `while True`; the model runs it on `enough_rounds`, 2 * (retry_budget + 1), which
-- suffice because a family is retried at most retry_budget times and a fallback happens once.
--
-- The executor's loop runs on fuel for one round more than the iteration budget, which suffice because
-- an iteration that is not the last costs one of the budget. A step that raises leaves the state that
-- the steps before it made; the executor then degrades or raises. An answer of the language model is
-- the record that pydantic reads from it, before the validator of the program itself. The loop that
-- cuts chunks runs on the length of the content, since each round moves its start forward.
--
-- Parameters, for code that is not in the repository: `str.lower` (the argument of select_family),
-- `str.casefold`, the arithmetic of floats, the embedding client, the web search tool, `str` on
-- values and exceptions, the replacement of credentials by regular expressions, the hash of a query,
-- `json.dumps` of a source reference, and what pydantic makes of a value that is not of the declared
-- type (Domain.Retrieval.Pydantic). Fields that pydantic bounds from below by 0 or 1 are natural
-- numbers; `float` is a decimal number, and a parameter where it is calculated with.
--
-- Not modelled: logging and prompts; the query generation service, the other family services and the
-- tools, which are collaborators here, and evidence processing but for its material selector; the
-- adapters, the API and the wiring (I/O); the planner, memory and output services but for the rules of
-- an action's status, which are other parts of the program.
pub mod Prelude
pub mod Text
pub mod Domain
pub mod ToolLayer
pub mod Observability
pub mod Executor
pub mod Evidence
pub mod Families
pub mod Memory
mod Tests
