-- ===== src/Lib.antt =====
-- A verification library of the core of a local-first personal assistant: approvals of external
-- actions and their outbox, the agent's loop, the gateway of tools, the queue of jobs, the service of
-- tasks, the composition of context, the disclosure of data to models, the registry of extensions with
-- their lifecycle, and the audit's redaction.
--
-- The agent (src/personal_assistant/core/agent) runs in rounds. In a round a planner proposes a
-- decision, and a tool call goes to the gateway (core/tools/gateway.py), the only way to a side
-- effect. The gateway resolves the tool in a registry, validates the arguments, asks the policy, and
-- for an external tool consumes an exact approval (core/approvals) before it calls the executor; every
-- end of the call finishes the approval and is written to the audit. An outcome that asks for a user
-- or an approval ends the loop, and a fuse pauses a run that makes no progress. Work between processes
-- goes through a queue of jobs with leases (core/jobs, infrastructure/memory/job_queue.py). A task
-- (core/tasks) is created together with its first job, an event and an audit entry. What a model is shown
-- is composed within a budget of characters from layers and from retrieved evidence (core/context), and
-- a router hands it to a provider (core/models), to a remote one only under a stored consent of the user.
-- Tools come from extensions (core/extensions): a manager starts a worker, checks it and publishes what
-- the extension declares in the registry, and takes it out of the registry before it stops the worker.
--
-- Files. Base: the shared names, decided equality (`HasEq`), lists measured by native numbers, and
-- Python's `dict` as an association list.
-- Domain: Enums, Errors and Models are domain/enums.py, domain/errors.py and domain/models.py; Values
-- are the Python values of a payload; Text is the part of `str` that the code uses, Sorting is `sorted`
-- on texts; Exec is a method that changes an object and may raise: what was written before a raise stays
-- written.
-- Approvals: Canonical is canonicalize.py (normalize_json, canonical_json, canonical_sha256), StateMachine
-- is state_machine.py, and Binding, Record and Service are service.py (ApprovalBinding; ApprovalRecord and
-- InMemoryApprovalRepository; ApprovalService). A method of the service is a `Plan` that it makes of the
-- copy it read, carried out by `settle`. Interleaving lets any number of clients read and settle in any
-- order; MemoryOutbox is infrastructure/memory/outbox.py, and Operations are its calls among those of
-- other clients. Follows, Stored, Evolution, ExactlyOnce, Guards, Refinement and Simulation hold the
-- proofs.
-- Audit: Redaction is core/audit/redaction.py, Writer is writer.py with infrastructure/memory/audit.py;
-- Masking holds the proofs.
-- Agent: StateMachine, Progress, Checkpoint and Engine are state_machine.py, progress_detector.py with
-- safety_fuse.py, checkpoint.py and engine.py. A round is told what the planner, the validator and the
-- gateway answer by a `Turn`. Calls is what runtime.py keeps of a tool call (serialize_call,
-- restore_call), Decisions is the DecisionValidator of decisions.py. Writes, Rounds, Stalls, Durability,
-- Segments, Restoring and Authority hold the proofs.
-- Tools: Policy, Registry and Sanitizer are policy.py, registry.py and result_sanitizer.py; Host is what
-- the gateway works on, Endings its handlers of the executor's end, Gateway its `invoke`. Permission,
-- Publication, Invocation, Safety and Foreign hold the proofs.
-- Jobs: Outbox is outbox.py, an interface that the gateway takes; Queue, Claims and Holding are
-- InMemoryJobQueue; Schedule is scheduler.py. Leases, Claimed, Idempotency and Firing hold the proofs.
-- Tasks: Repository and Events are InMemoryTaskRepository and InMemoryEventStream of
-- infrastructure/memory/tasks.py, Service is TaskService over them, the queue and the audit; `run` makes
-- any calls of its methods, one after another. Drafts is infrastructure/memory/form_drafts.py. Integrity,
-- Additions, Keeping, Replies, History, Steps, Promises, Answers, Replay and Receipts hold the proofs.
-- Context: Delimiters and Composer are composer.py, Models, Manager and Provenance are models.py,
-- manager.py and provenance.py. Escaping, Fences, Budget, Admission and Tracing hold the proofs.
-- Disclosure: Fields is models/provider.py; Digest, Previews and Service are models/disclosure.py (the
-- digests; preview; confirm, authorize, revoke, get and list_for_user), Consents is its record with the
-- store infrastructure/memory/disclosures.py; Calls, AuditData and Router are models/router.py. Runs makes
-- any calls of the service and the router, one after another. Licences, Handing, Permission, Evolution,
-- Lifecycle, Revocation, Promises, Previewed and Grants hold the proofs.
-- Extensions: Registry is extensions/models.py and registry.py, where `withdraw` and `publish_extension`
-- are its `disable` and `enable`; Ports and Lifecycle are enable, recover, disable and uninstall of
-- `LifecycleManager` (lifecycle.py) over the store of infrastructure/memory/extensions.py. Runs makes any
-- calls of enable, disable and uninstall, one after another. `recover` is for a registry that a restart
-- emptied, and is not among them. Rebuilding, Withdrawal, Owners, Soundness, Steps, Preservation, Calls,
-- Uninstalls, Promises and Revocation hold the proofs.
-- A file named Tests, or ending so, runs the code of its part at concrete inputs.
--
-- Numbers are natural numbers; times are in microseconds, the clock and fresh identifiers are
-- arguments. No integer of this code wraps. Floats are the texts that Python prints. The loops are over
-- lists; the agent's loop takes one turn from a list for each round, and a list that ends while the run
-- is still running gives no result, so a theorem on what it returns says which lists suffice. The
-- recursion of trace_provenance takes one unit of fuel for each known item and one more.
--
-- Arguments stand for what the repository does not hold or what is modelled apart from these files:
-- SHA-256, Python's `repr` and `==` on the values of a form, the printing of a time limit and of a
-- locator, what `json.loads` reads from a stored action, what the providers of evidence answer, and
-- the outbox of a database. The validator of schemas (core/tools/schemas.py) is an argument of the
-- gateway and of the validator of decisions: what is shown of them holds for each validator of
-- schemas. The executor of a tool answers in one of eight ways, and other clients may change the
-- approvals in any way while it runs.
--
-- Not modelled: the rest of the queue-driven TaskRuntime and the planner's prompt, the browser, the
-- installation, upgrade, rollback and supervision of extensions and the purge of their data, the
-- checks of forms and of their values in FormDraftService, the sorted page of list_recent, the waiting
-- of wait_after, the unit of work, which makes a method of the task service one transaction of a
-- database, and the adapters of infrastructure, api, cli, workers, extensions and scripts, which are
-- input and output for the most part.
pub mod Base
pub mod Domain
pub mod Approvals
pub mod Audit
pub mod Agent
pub mod Jobs
pub mod Tasks
pub mod Context
pub mod Tools
pub mod Disclosure
pub mod Extensions
