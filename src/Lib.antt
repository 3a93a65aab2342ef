-- ===== src/Lib.antt =====
-- Verification library of the agent runtime ouvrier (Go).
--
-- Parts and files:
--
-- * State models internal/state: the in-memory backend of the Store interface, whose mutex makes each
--   method one step from a MemoryStore to an answer and a MemoryStore. State/Types has the records
--   and the Exec type, and the modules beside it one concern each: Leases (memory_lease.go,
--   lease.go), Idempotency (memory_store.go, idempotency.go), Approvals (memory_store.go,
--   approval.go), EventLog (AddEvent to eventsSinceLocked), Journal (memory_journal.go, journal.go),
--   Records (executions, sessions, violations) and Memory (memory.go). A method is two functions:
--   the checks before the lock (`..._args`) and the step under it (`..._locked`), put together by
--   `checked`. Lower-case Go names keep their words; a method that a record's name would hide is
--   called find_...: Approval is find_approval. Properties over histories of calls take a list of
--   calls, of any contexts and clock readings, and run it from any store.
-- * Events models internal/events: the event and its payload (Values), canonical kinds (Kinds),
--   sensitive keys (Keys), sanitizing (Sanitize), the circular buffer of event_buffer.go (Buffer),
--   the durations of event_stream_metrics.go with their ring of starts (Metrics), the event stream of
--   event_stream.go, event_stream_retention.go, event_stream_options.go and
--   event_stream_persistence.go (Stream), and hook_bus.go (Hooks). A callback (persistence, a hook) is
--   a function, and what an append delivers is a list beside its answer.
-- * Policy models internal/policy/policy.go: the options, and the decision on every kind of action.
-- * Tools models internal/tools (executor.go, idempotency.go, retry.go): the retries of a call, the
--   reservation of an idempotent call in the store before it runs, and its settlement. What an
--   invocation returns is an argument, and the errors that the source tells apart with errors.Is
--   and errors.As are a record of what these tests answer. Permission models permission.go with
--   approval.go and the key of intent.go, and Execution the whole of Execute: checks, gate,
--   reservation, intent, retries and settlement, over one store.
-- * Recovery models durable_recovery.go: the decision of recoverClaimedDurableRun on a run whose
--   lease it holds (verdict), over the reads of the store, and what it does to the store (enact), the
--   scan of recoverDurableRunsScan that claims interrupted runs (Scan), and the heartbeat that keeps
--   the lease of a run (Heartbeat).
-- * Cron models runtime_cron_lease.go: the turns of several replicas (follow, tick_step,
--   renewer_step, release_on_shutdown) on one store, and the epoch-aligned schedule (Schedule).
-- * Harness models provider_gate.go (Gate), budget_ledger.go (Budget) and approval.go (Approval)
--   of internal/harness.
-- * Base has the shared helpers: tests, lists, maps, results, texts, integers and sorting.
--
-- The store's methods sanitize what they keep with the functions of Events, which the modules take
-- through the record Redactor: RedactText and RedactJSONText run regular expressions and read the
-- process environment, so they are parameters of the model, and a property that needs one of their
-- laws has it as a hypothesis.
--
-- Choices: an instant is its nanoseconds since Go's zero time; a uint64 counter wraps at 2 ^ 64, and the
-- int64 of the cron schedule and the token counts wrap around as signed words; a
-- time.Duration is an integer that may be negative; a Go map is an association list in which an
-- insertion replaces, and its order of iteration is observed nowhere but in list_sessions; a
-- sort.Slice is an insertion sort. All functions are structural; the loop of executeWithRetry
-- recurses on fuel, and the number of retries allowed is enough, since its attempts count up to it.
--
-- Parameters: float64 (Floats, Costs), the digests of internal/tools/idempotency.go, JSON of stored
-- replay values (Json), the text of an instant in a cron key, and JSON schemas with reflection, as the
-- error that they give for a call's arguments.
--
-- Not modelled: the SQL backends, network clients and servers, the command line and the user
-- interfaces, the harness loop, the replay of an interrupted run, pipelines and their composition, and
-- the registration of tools.
pub mod Base
pub mod Cron
pub mod Events
pub mod Harness
pub mod Policy
pub mod Recovery
pub mod State
pub mod Tools
