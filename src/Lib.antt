-- ===== src/Lib.antt =====
-- A library that models the construction-takeoff program and proves properties of it. It follows
-- five of the program's parts: the service that takes submissions, shards a takeoff over the pages of a
-- drawing set and serves its paginated results; the reading of schedule tables; the counting of
-- fixtures; the segmentation of a bid package; and the harness that runs a language model's tool calls.
--
-- How the parts interact: a submit finds a job or makes one, whose candidate pages are split into
-- windows (the planner), each window is extracted by a queued task (the orchestrator runs the
-- extractor's page loop on it, which finds the schedule tables of a page and makes items of their
-- rows), and the task that finishes the last window enqueues the reduce, which merges the partial
-- results. Items of a catalog wait for the counts of their marks on the plans, which are verified and
-- reconciled to one total for each mark. In the harness, the agent's tool calls go through the
-- registry, which asks the permission manager and runs the tool; the plan tools are among those
-- tools and keep the plan that decides whether a run may end. The agent's loop compacts the
-- transcript when it grows, and sends it to the provider, whose stream of events is accumulated into
-- a response; a tool may spawn sub-agents, each with a loop of its own.
--
-- Which file models which part (paths from the repository's root):
-- - Shard/Planner: service/takeoff/planner.py, plan_shard_windows.
-- - Shard/Extract: the page loop extract_schedule_items of src/takeoff/quantity_schedules.py,
--   extract_shard of service/takeoff/pipeline_adapter.py and merge_partials of
--   service/takeoff/reduce.py.
-- - Schedules: src/pipeline/schedule_resolver.py (Schema, Labels, Resolver), the row selectors and
--   the entries of src/pipeline/phase2_schedule_parser.py (Rows, Entries), and the items of
--   src/takeoff/quantity_schedules.py (Items); Cells and Marks have the texts and the patterns.
-- - Counts: src/takeoff/count_verifier.py, from the verdict on a count to the items that take a total,
--   and src/takeoff/fixture_counts.py (Fixtures), the counts themselves.
-- - Shard/Orchestrator: service/jobs/orchestrator.py over the rows of service/core/models.py. One
--   function for each database transaction; Counter has the interleavings of the shards' tasks as a
--   step relation, and Enqueue adds the step in which the enqueue of the reduce raises.
-- - Harness/Messages: src/harness/messages.py and the response type of src/harness/providers/base.py.
-- - Harness/Plans: src/harness/plans/model.py and src/harness/plans/tools.py.
-- - Harness/Permissions: src/harness/permissions/{model,policy,manager,trust}.py.
-- - Harness/Registry: dispatch of src/harness/tools/registry.py, with the Tool of
--   src/harness/tools/base.py.
-- - Harness/Context: src/harness/context/masking.py, with summarizer.py, compactor.py and the states of
--   accountant.py in its children; Pairing has the order of calls and results in a transcript.
-- - Harness/Agent: src/harness/agent.py. Agent has the types and texts, Agent/Loop the turns of arun.
-- - Documents/Segmenter: src/pipeline/segmenter.py over the profiles and regions of
--   src/models/document_map.py.
-- - Harness/Stream: src/harness/providers/events.py, and accumulate of src/harness/providers/base.py.
-- - Harness/Retry: src/harness/providers/retry.py.
-- - Harness/Subagents: src/harness/subagents/{subagent,spawner,parallel,spawn_tool,parallel_tool}.py.
-- - Service/Ingestions: service/api/ingestions.py, with the unique indexes of
--   service/migrations/versions/0004_dedup.py.
-- - Results: the entity endpoints of service/api/query.py and the client's loop _fetch_pages of
--   src/takeoff_agent/reconcile.py.
-- - Results/Projection: service/takeoff/projection.py over the entity rows of service/core/models.py.
-- - Prelude: the shared tests, lists, texts and equality.
--
-- State is passed explicitly: a job's row, a shard's row, a plan holder, a permission manager and a
-- registry are records, and an operation gives the new record beside its result. An exception is a value
-- of Result, or the end of a run. Numbers are natural numbers, and integers where the source's may be
-- negative; Python's integers do not overflow. Page numbers are those of range(page_count).
-- The page index in an item's source is its decimal text, and a partial is read as it was written, its
-- JSON left out. A tool call's arguments are JSON objects: a text with another JSON value is not among
-- those that `json.loads` is modelled on.
--
-- Parameters, for what is outside: what a page's text and tables hold, the outcome of an extraction and
-- of the object store, the schema validator, json.dumps, repr, the printing of lists, the paths of the
-- file system, a human's answers, the bodies of tools, a lock and a random nonce; the
-- provider's answers, `json.loads`, the hash of an upload, floats and `float` of a text, the state of
-- the context's budget, the clock, and the tools chosen for a turn.
--
-- Fuel is the number of digits in which a number is printed, one more than the number, and the agent's
-- max_iterations, which bounds the source's loop as well. The client's loop over pages runs on fuel, for
-- which one more than the number of pages is enough. So does the segmenter's loop, for which one more
-- than the number of runs is enough. Every other loop is a structural recursion
-- over the list or the position it walks.
--
-- Not modelled: time stamps and identifiers, the database, the queue and the object store themselves
-- (neither a task that is killed between two transactions nor a database transaction that raises is
-- among the steps; the enqueue of the reduce that raises is), HTTP, the PDF libraries, the
-- vendors' adapters, the accountant's token counts, the search for a turn's tools, the parsers of
-- specifications, drawing indexes and abbreviations, the knowledge graph and its gates, and
-- the images that a count is verified on.
pub mod Prelude
pub mod Shard
pub mod Harness
pub mod Results
pub mod Schedules
pub mod Documents
pub mod Service
pub mod Counts
