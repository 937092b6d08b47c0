-- ===== src/Lib.antt =====
-- proto-v2-engine: an engine that judges situations, and the constitutional rules under which a
-- judgment may have an effect. A decision preparation artefact (DPA) is composed for an event, reviewed
-- and decided by a human, and applied. The engine runs behind a transition that asks for an approval,
-- checks an execution envelope and applies the DPA first.
--
-- The parts, and the files that model them:
--
--   Base, Json       shared tests, lists, results of raising code, dictionaries in insertion order,
--                    texts as code points, and Python values as `json.loads` builds them.
--   Judgment         core/judgment. Models: status.py, errors.py and models.py. Transitions: the four
--                    functions of transitions.py. Repo, Repo/Memory, Repo/File: the protocol of repo.py
--                    as a record of operations, its laws, and the stores of repo.py and
--                    persistence/file_repo.py. Composer: composer.py. Service: `DpaService` of
--                    service.py, each method from a store to a result and a store; Service/Calls has
--                    the calls as data. Approvals: persistence/approval_queue.py (a log of events) and
--                    persistence/inmemory_queue.py (a dictionary). Lifecycle, Soundness,
--                    Repo/File/Printed, Repo/File/Refinement, Service/Invariant, Service/History and
--                    Approvals/Refinement hold proofs. The service runs over stores whose `get` does
--                    not raise.
--   Execution        core/contracts/execution_envelope.py, meta_judgment_envelope.py, actions.py and
--                    errors.py (Envelope, Exceptions), `run_execution` of core/execution/executor.py
--                    (Executor), the condition under which it calls its port (Permits), the guard
--                    of core/execution/idempotency_guard.py (Idempotency), and the adapter of
--                    core/execution_adapter/impl_noop.py (NoopAdapter).
--   Engine           core/engine/constitutional_transition.py and transition_facade.py (Transition),
--                    and what is plugged into them (Ports): the queue adapter of
--                    core/judgment/adapters/judgment_from_queue.py, the port of
--                    persistence/noop_apply_port.py, and the service. Gate, Run, EndToEnd and
--                    QueueAdapter hold proofs.
--   Governance       core/governance. Proposal: proposal_schema.py. HumanGate: human_gate.py.
--                    Validator: proposal_validator.py and errors.py, with a constructor for each test
--                    in place of its text. Queue: queue_evaluator.py and queue_outcomes.py, over the
--                    four callables of `QueueDeps`. Eligibility and Replay hold proofs.
--   Policy           The decision of the engine: Decision (types of core/contracts.py), V01
--                    (core/engine/policy_v0_1.py), V02 and V03 (core/policy/policy_v0_2.py and
--                    policy_v0_3.py) over the state of State and the cooldown of Cooldown, and
--                    Recommendations (core/engine/recommendations_v0_1.py). Escalation and Suppression
--                    hold proofs.
--   Orchestrator     Routing: core/orchestrator/routing/recommendation_router.py. Delivery holds proofs.
--   Learning         core/learning_os: the rate limiter (RateLimiter, rate_limiter.py) and the emitter of
--                    proposals (Emitter, proposal_emitter.py). Window has sequences of calls of the
--                    limiter; Bound, Reference and Emission hold proofs.
--   Chain            core: CanonicalJson: canonical_json.py. Hasher: hasher.py. Validator: validator.py and
--                    constants.py. Walker: chain_walker.py. SHA-256, json.dumps, datetime, the texts
--                    that can be encoded and the text of other values are parameters. Exceptions of the walk are `WalkError`.
--                    CanonicalJson/Normal, CanonicalJson/Duplicates, Validator/Sound, Walker/Steps,
--                    Walker/Total and Walker/Linked hold proofs.
--   Patches          core/B_learning/approval.py: Pointer, Document, Patch, Approval and Flows.
--                    core/policy_store/store.py: Store. Files are the lists of their records, the texts
--                    of times are arguments, and hashes and `isalnum` are parameters (`Hashes`).
--                    Patch/Replace, Store/Versions, Flows/Approvers,
--                    Flows/Effect, Flows/Recorded and Flows/Once hold proofs.
--   Override         tools/override/schema_override_event.py: Schema. tools/audit/verify_override_chain.py:
--                    Chain; a line is what json.loads makes of it. SHA-256, json.dumps and datetime are
--                    parameters. Chain/Accounts and Chain/Verified hold proofs.
--   Web              infra/api/endpoints/approvals.py: Approvals, over the rows of the database as
--                    values. The reading of a time from SQLite is a parameter, and the outcome of a
--                    commit is part of the request. endpoints/execution.py and one pass of
--                    jobs/approval_expirer.py: Execution, over a table of runs, with requests of other
--                    sessions as a list. Approvals/Consistent, Execution/Gated, Execution/Table and
--                    Execution/Retry hold proofs.
--   Actions          core/contracts/orchestrator.py, the gates: Authorization. core/C_action: Gate has
--                    execution_gate.py and the gate of plan_from_receipt.py, Plan the class of
--                    contracts.py, Queue the queue item of queue_router.py and queue_consumer.py. The
--                    disk holds what stands at a place, in JSON. The place that a path leads to, whether a
--                    file can be removed, the clock, SHA-256, os.stat and str of a value that is no text
--                    are parameters. Gate/Authorized, Gate/Passed,
--                    Queue/Processed and Queue/Routed hold proofs.
--   Cli              cli/auto_quarantine.py, the days of its range: Quarantine.
--   Learning.Proposals  core/learning/proposals.py: proposals from anomalies. A template's builder of
--                    operations, the comparison of floats, int, float, the clock and the two stores that
--                    are asked are parameters. Proposals/Whitelist and Proposals/Outcome hold proofs.
--   Storage          infra/storage/approval_queue_repo.py: ApprovalQueue. The file is the list of its
--                    lines, each a dict or unreadable; ApprovalQueue/Recent has list_recent
--                    with its order, and ApprovalQueue/Views proofs.
--   Tests            runs at concrete inputs.
--
-- How the code is read. A method that changes an object takes the state and returns the result and the
-- state; a function that raises returns `err` of the exception, with a constructor in place of the text
-- of a `PermissionError`. The functions of transitions.py assign to a record in place only after their
-- last guard, so that they are functions from record to record, and the service saves what they return.
-- Times are numbers or texts, and a clock that the code reads is the argument `now`. Floats are a parameter: a
-- type with the comparisons that the code uses and the constants it names. `str.lower`, `str.upper` and
-- the tests on texts are those of Python on ASCII letters, and `int` of a text reads a sign and ASCII
-- digits. Every loop is recursion on its list, but
-- for the days of Cli/Quarantine, whose 32 rounds are proved to be enough.
--
-- Parameters. Of what the code takes from elsewhere: the texts of json and the building of records
-- by pydantic (`Codec`, with the laws `IsCodec`), floats, `datetime` parsing and printing, the
-- clock and the environment variables. Of what the code is handed: the callables of `QueueDeps` and the
-- queue writer, which are protocols. SHA-256 and `json.dumps` are parameters, of which no theorem
-- asks that they have no collisions; which texts `encode` takes is one with the laws `IsEncoding`.
-- `run_engine` of core/engine/run_engine.py is an argument of the transition, which may run any
-- engine.
--
-- Not modelled: the other web routes and the command lines, the other tools for continuous integration, the sensors and
-- simulators of the subsystems that only produce data, and all input and output.
pub mod Base
pub mod Json
pub mod Judgment
pub mod Execution
pub mod Engine
mod Tests
pub mod Governance
pub mod Learning
pub mod Policy
pub mod Orchestrator
pub mod Chain
pub mod Patches
pub mod Override
pub mod Web
pub mod Cli
pub mod Actions
pub mod Storage
