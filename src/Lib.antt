-- ===== src/Lib.antt =====
-- AppShak HQ runs agents as worker processes around a durable mail store, and as agents of a kernel
-- in one process. This library models the packages appshak_substrate and appshak, the ledger and
-- the rules of appshak_governance, and the projector of appshak_projection.
--
-- The parts and how they interact:
--   * The mail store (appshak_substrate/mailstore_sqlite.py, schema.sql) keeps events, leases,
--     idempotency keys, tool audits and worker heartbeats in an SQLite database. Workers claim an
--     event under a lease and settle it: done, failed, or back to pending.
--   * The tool gateway (tool_gateway.py) runs tools for agents. It asks the policy (policy.py),
--     reserves the request's idempotency key in the mail store, acts, and writes an audit row.
--   * The agent runtime (agent_runtime.py) handles an event that a worker has claimed: it hands a
--     tool request to the gateway and answers with an event in the mail store.
--   * A worker (worker_process.py) records a heartbeat, claims an event, has the runtime handle it,
--     and acks or fails it, in a loop.
--   * The supervisor (supervisor.py) starts one worker for each agent, reads the workers' heartbeats
--     from the mail store, restarts what has died, with a growing delay, and disables what dies
--     too often. It tells all this to the agents by control events in the mail store.
--   * The durable event bus (bus_adapter.py) has the interface of the kernel's bus over the mail
--     store.
--   * The kernel (appshak/kernel.py) takes events from its bus (appshak/event_bus.py), in memory
--     unless another is given. It reports events without a justification, has the chief
--     (appshak/agents/chief.py) decide on proposals, and takes requests for external actions
--     through the chief and the safeguards (appshak/safeguards.py) to the sandbox. What happens is
--     logged in its memory (appshak/memory.py).
--   * The projector (appshak_projection/projector.py) folds the events and tool audits of the mail
--     store into a view, from where it stopped before.
--   * Governance reads successive views (appshak_governance/projection_adapter.py), changes the
--     agents' reputation and trust (relationship.py, registry.py), lets agents vote
--     (arbitration.py), passes lessons on to them (water_cooler.py), and writes a ledger that is a
--     chain of hashes (ledger.py).
--
-- The files:
--   * Prelude: Boolean tests, lists and options. Python: texts (strip, upper, lower), JSON values
--     and dictionaries, and exceptions as results.
--   * Substrate/Types: SubstrateEvent with coerce, to_dict and from_row; ToolRequest, ToolResult.
--   * Substrate/MailStore/Tables, Events, Claim, Settle, Keys, Audit: the tables and the methods of
--     SQLiteMailStore, by their names in the source. Each method is one transaction on the record
--     Store. History has every call as a data type, and runs of calls of any connections.
--     Lookup, Select, Invariant, Exclusive, Delivery, Settlement, Final, Once and Reading are proofs.
--   * Substrate/Policy: ToolPolicy.validate and its helpers; Policy/Allowed, Policy/Inside,
--     Policy/Causes and Policy/Raises are proofs.
--   * Substrate/Gateway/Request, Execute, Handle: _coerce_request, _execute_allowed with its six
--     actions, and execute with _deny; Handle/Cases, Handle/Audited and Handle/AtMostOnce are proofs.
--   * Substrate/Runtime: AgentRuntime.handle_event with its two handlers; Runtime/Acts is a proof.
--   * Substrate/Worker: a turn of the loop in _main, as worker_turn; Worker/Ends is a proof.
--   * Substrate/Supervisor/State, Control, Restart, Monitor, Run: the state and the methods of
--     Supervisor, as actions that return or raise and leave a state either way; Run has the outer
--     loop over a list of passes. Keeps, Pass, Bounded, Whole and Bounds are proofs.
--   * Substrate/Bus: DurableEventBus; Bus/Fifo is the queue that it refines, and Bus/Refines the
--     proof.
--   * Kernel/Events: EventType, Event and EventBus; Kernel/Substring: Python's `in` on texts.
--   * Kernel/Safeguards: SafeguardMonitor with record_attempt; Safeguards/Gate has check_request and
--     execute_in_sandbox with proofs about them, and Safeguards/Cooldown is a proof.
--   * Kernel/State: the state of AppShakKernel with its memory, as actions that return or raise and
--     leave a state either way; Kernel/Chief: the base agent and the chief; Kernel/Route:
--     _route_event with _process_external_action_pipeline; Kernel/Life: the turns of heartbeat,
--     start, shutdown and request_emergency_stop; Kernel/Replay: replay_events with
--     load_published_events_for_replay. Replay/Deque, Replay/Marks, Replay/Again, Route/Known,
--     Route/Stages, Route/Drain and Life/Builder (which has the builder too) are proofs.
--   * Governance/Ledger: GovernanceAuditLedger; Governance/Floats: the numbers and clamp;
--     Governance/Registry: AgentRegistry; Governance/Relationship: RelationshipWeightEngine;
--     Governance/Boardroom: BoardroomArbitrator, with its proof; Governance/Outcomes:
--     ProjectionOutcomeAdapter; Governance/WaterCooler: WaterCoolerPropagation. Ledger/Chain,
--     Relationship/Bounded, Outcomes/Known, WaterCooler/Taught, WaterCooler/Quiet and
--     WaterCooler/Passed are proofs.
--   * Projection/View: the view; Projection/Projector: ProjectionProjector.project_once.
--     Projection/Newer, Projection/Resumes and Projection/Statuses are proofs.
--   * Tests: a concrete store, gateway, runtime, supervisor and kernel, and the theorems at these.
--
-- What is taken from outside, as parameters: the file system and shlex.split (Host, whose resolving of a path may
-- raise), processes, files and what SQLite makes of a value that is no text (System, which acts on a
-- world of its own type), the clocks and what the processes' handles
-- say (Env, read once for a pass of the supervisor, so that its clocks stand still during one), and
-- Python's printers and parsers of numbers and times; for the kernel, urlparse and the printers
-- (Library), and its clock, which stands still while one event is handled (Outside); for governance,
-- the floating-point numbers (FloatOps), the hash of a record, and str and int (Readers). Nothing
-- is assumed of any of them.
--
-- How data is modelled: times are natural numbers of microseconds, since all timestamps are UTC in
-- ISO format and compare as texts the way the times do. A JSON column holds the value it was
-- written from. The case mappings are those of ASCII. A dictionary is a list of its fields in order.
-- A table is a list of rows in the order of insertion, which is that of the ids.
--
-- Bounds and loops: claim_next_event polls in turns, each with what others commit before it and
-- what its clocks say; a turn past the deadline is enough for the loop to end. The supervisor's
-- outer loop goes over the passes that are given. All other loops are over lists. Numbers are those
-- of Python, without a bound, but for the delay of a restart, which overflows as a float does.
--
-- The kernel's queue is followed for three turns for each event: one for the event, and two for what
-- is published in answer to it.
--
-- Not modelled: connections and the schema migration of the mail store, the supervisor's loggers,
-- the command line and signals of a worker; what hooks of a bus do besides the kernel's own; the
-- tasks of the kernel's event loop, its files, and its loader of plugins; negative settings of the
-- safeguards; the registry's JSON and the engine of governance; the schema of stored views and the
-- stress level; and the other packages.
pub mod Prelude
pub mod Python
pub mod Substrate
pub mod Kernel
pub mod Governance
pub mod Projection
pub mod Tests
