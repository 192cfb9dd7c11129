-- ===== src/Lib.antt =====
-- Universal Agent Studio: a verification library beside the Python code.
--
-- The platform stores agents, their immutable versions, one mutable draft for each, the pointer
-- that routes the traffic of an agent to a version, and an append-only ledger of publications and
-- rollbacks; it runs agents, stores the events and the terminal trace of each run, and sends signed
-- webhooks for terminal traces. Paths below are from the root of the repository; store stands for
-- libs/python/platform_store/src/universal_agent_platform_store, kernel for
-- libs/python/agent_kernel/src/universal_agent_kernel, runtime for
-- workers/runtime/src/universal_agent_studio_runtime.
--
-- The files and what they model:
--   Prelude     Boolean tests, lists, texts, and methods that mutate and may raise.
--   Json        documents as Python values, with the `==` of Python on them.
--   Redaction   kernel/redaction/policy.py and the search for forbidden keys of
--               kernel/contracts/validation.py.
--   Catalog     the rows of store/models.py for agents, and store/scope.py.
--   Publishing  store/repositories/publishing.py, class PublishingRepository: `publish_draft`
--               and `rollback`.
--   Versions    store/repositories/agents.py: `import_version`, `activate`, `get_version`.
--   Drafts      store/repositories/drafts.py: `create_from_active`, `get_draft` for `get`, and
--               `update_draft` for `update`.
--   Differences apps/control-api/src/universal_agent_studio_api/agents/draft_service.py:
--               `diff_documents` for `_diff_documents`.
--   History     any sequence of those operations by any tenants, each in a transaction; in Register
--               the traffic pointers as an abstract register.
--   Runs        store/repositories/runs.py: `create_idempotent`, `append_event`,
--               `finalize_trace`, `list_events`.
--   Webhooks    store/repositories/webhooks.py: `enqueue`, `enqueue_terminal`, `revoke`.
--   Delivery    runtime/webhooks/dispatcher.py, SqlWebhookDeliveryStore: `claim_due`, `finish`.
--   Dispatcher  the same file, WebhookDispatcher: `deliver` for `_deliver`, `dispatch_once`.
--   Kernel      kernel/domain.py and kernel/ports.py; in its modules Recorder
--               kernel/execution/events.py and `validate_run_trace` of
--               kernel/contracts/validation.py, in Graph `_execution_path` and in Execution
--               `AgentKernel.execute` of kernel/execution/graph.py.
--   Auth        apps/control-api/src/universal_agent_studio_api/auth: service.py and store.py.
--               Paths below that start with api are under apps/control-api/src/
--               universal_agent_studio_api.
--   RunDocuments  `RunEvent.to_document` of kernel/domain.py and the documents of traces without
--               output.
--   RunService  api/runs/service.py: SqlRunPersistence, in Failure `finalize_start_failure`, and in
--               Requests class RunService: `create_resolved_run`, `get_run`, `cancel_run`,
--               `list_run_events` for `list_events`, `get_trace`.
--   Streams     api/runs/sse.py, `stream_run_events`.
--   Credentials api/publishing/principals.py, and the check of API keys of api/publishing/crypto.py.
--   Public      api/publishing/public_service.py: the authentication of API keys, in Creating
--               `_resolve_agent` and `_create_principal`, in Requested `create_run`, in Reading
--               `_read_principal`, `get_run` and `authorize_events`, in Streaming `_sanitize_event` and
--               `stream_events`; in Keys the key methods of api/publishing/service.py and
--               ApiKeyRepository of store/repositories/publishing.py.
--   Envelope    kernel/execution/envelope.py and `_trusted_command` of
--               runtime/activities/execution.py.
--   Subscriptions  api/publishing/service.py: `validate_webhook_target` and the webhook methods of
--               PublishingService, with those of WebhookRepository.
--   Invocations runtime/activities/events.py, `invoke_calculator_once` and the gateway over it.
--   Tests       samples and the theorems at concrete inputs.
--
-- How the state corresponds: a table is the list of its rows, the newest first, and a query selects
-- by the conditions of its `where`. A UUID is a number; a fresh `uuid4()` and the time of the clock
-- are arguments of the operation that asks for them. A repository method is an action: a function
-- from the tables to a result, which is a value or the exception raised, and the tables after it.
-- Row locks and advisory locks make each method atomic, so the interleavings of clients are the
-- sequences of operations of History and Runs/Lifecycle. Times are microseconds.
--
-- How the parts interact: Publishing, Versions and Drafts act on one Catalog; History puts them
-- together. Webhooks fills the outbox from a terminal trace; Delivery leases its rows and Dispatcher
-- turns answers into completions of the leases. RunService acts on the catalog, the runs and the
-- outbox at once; Streams polls it, and Public lets requests through to it.
--
-- The loop of `_execution_path` runs on fuel, one turn for each node and one more; a turn that does
-- not end the loop visits a node for the first time, so that the fuel is enough. Every other loop is
-- over a list or a text.
--
-- Arguments for what is outside of the repository: `urlsplit`, which raises for a malformed URL, and
-- the answer of the HTTP exchange (Dispatcher, Subscriptions), the validation of drafts (Publishing), the rows that another
-- transaction has locked (Delivery), the ports of the kernel with the schema validation, the clock and
-- `uuid5`, the hashes of passwords and tokens (Auth), the durable execution, the validation of inputs
-- and the digest of requests (RunService), the calculator (Invocations), and HMAC, base64, JSON and
-- the texts of UUIDs (Credentials, Envelope). The properties assume of these: `uuid5` gives names with
-- different numbers different identifiers; base64, JSON and the texts of UUIDs are read back as they
-- were written, and base64 holds no dot; a digest equals itself and has 64 digits; what `secrets`
-- draws for the prefix of a key are sixteen characters without an underscore.
--
-- Not modelled: columns that no operation reads back (metadata, provenance, the acting owner, most
-- timestamps), floats in documents, the schema validation, node executions and metrics of traces, the
-- API routers, the rest of the services of agents, drafts and publishing, which map exceptions to
-- answers, the Temporal worker and the migrations.
mod Prelude
pub mod Json
pub mod Redaction
pub mod Catalog
pub mod Publishing
pub mod Versions
pub mod Drafts
pub mod History
pub mod Differences
pub mod Runs
pub mod RunDocuments
pub mod RunService
pub mod Streams
pub mod Credentials
pub mod Public
pub mod Invocations
pub mod Envelope
pub mod Subscriptions
pub mod Webhooks
pub mod Delivery
pub mod Dispatcher
pub mod Kernel
pub mod Auth
pub mod Tests
