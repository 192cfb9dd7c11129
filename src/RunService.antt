-- ===== src/RunService.antt =====
-- apps/control-api/src/universal_agent_studio_api/runs/service.py, class SqlRunPersistence, over the
-- tables of the catalog, of the runs and of the outbox. What the durable execution is asked to do
-- is a log of the state.
pub mod Failure
pub mod Requests
mod Persisted
pub mod Repeated
use universal_agent_studio.Prelude.{
  ℕ, ◌==◌, String, Bool, true, false, Option, none, some, List, find, update, Exec, Result, ok, err,
  pure, raise, require, gets, modify, transaction, ◌>>=◌, ◌>>◌,
}
use universal_agent_studio.Json.{Json}
use universal_agent_studio.Catalog.{Catalog, Tenant, Agent, AgentVersion}
use universal_agent_studio.Runs.{
  Run, RunStatus, RunTables, RunRequest, RunError, EventRecord, TraceRecord, CreateArguments,
  idempotency_key_reused, completed, failed, cancelled, run_of, find_run, find_trace,
  create_idempotent,
}
use universal_agent_studio.Runs
use universal_agent_studio.Webhooks.{Outbox, WebhookError}
use universal_agent_studio.RunDocuments.{Rendering}

pub record StoredRun : Type 0 where
  pub id : ℕ
  pub request_id : ℕ
  pub workspace_id : ℕ
  pub project_id : ℕ
  pub agent_version_internal_id : ℕ
  pub agent_version_id : String
  pub agent_version_digest : String
  pub status : RunStatus
  pub locale : String
  pub input : Json
  pub output : Option Json
  pub durable_execution_id : Option String
  pub cancel_requested : Bool

-- `_command`: what `start_run` is handed.
pub record DurableCommand : Type 0 where
  pub run_id : ℕ
  pub request_id : ℕ
  pub workspace_id : ℕ
  pub project_id : ℕ
  pub agent_version_id : String
  pub agent_version_digest : String
  pub agent_spec : Json
  pub input : Json
  pub locale : String

pub data Asked : Type 0 where
  start : DurableCommand → Asked
  cancel : ℕ → Asked

pub record Platform : Type 0 where
  pub catalog : Catalog
  pub runs : RunTables
  pub outbox : Outbox
  pub asked : List Asked

-- The ApiErrors, and what escapes as another exception.
pub data ServiceError : Type 0 where
  agent_version_not_active agent_version_not_found agent_version_digest_mismatch : ServiceError
  run_input_invalid durable_execution_unavailable run_not_found : ServiceError
  key_reused run_not_terminal run_trace_unavailable : ServiceError
  run_relations_missing run_agent_missing : ServiceError
  store : RunError → ServiceError
  webhook : WebhookError → ServiceError

abbrev pub Service : Type 0 → Type 0
Service A = Exec ServiceError Platform A

-- A method of the run repository, on the platform.
abbrev pub of_runs :
    {A : Type 0} → Platform → Result RunError A × RunTables → Result ServiceError A × Platform
of_runs p (ok a, tables) = (ok a, record p { runs = tables })
of_runs p (err e, tables) = (err (store e), record p { runs = tables })

abbrev pub with_runs : {A : Type 0} → Exec RunError RunTables A → Service A
with_runs m p = of_runs p (m p.runs)

-- `_stored`
abbrev stored_run : Rendering → Run → RunRequest → AgentVersion → Agent → StoredRun
stored_run r run request version agent = record {
  id = run.id;
  request_id = request.id;
  workspace_id = run.workspace_id;
  project_id = run.project_id;
  agent_version_internal_id = version.id;
  agent_version_id = r.version_id agent.agent_key version.version_number;
  agent_version_digest = version.digest;
  status = run.status;
  locale = run.locale;
  input = run.input_document;
  output = run.output_document;
  durable_execution_id = run.durable_execution_id;
  cancel_requested = run.cancel_requested;
}

unfoldable pub stored : Rendering → Run → Service StoredRun
stored r run = do
  known_request ← gets (λ p. find (λ q. q.resolved_run_id == run.id) p.runs.requests)
  known_version ← gets (λ p. find (λ v. v.id == run.agent_version_id) p.catalog.versions)
  request ← require known_request run_relations_missing
  version ← require known_version run_relations_missing
  known_agent ← gets (λ p. find (λ a. a.id == version.agent_id) p.catalog.agents)
  agent ← require known_agent run_agent_missing
  pure (stored_run r run request version agent)

-- `SqlRunPersistence.create_idempotent`
stored_with : Rendering → Run × Bool → Service (StoredRun × Bool)
stored_with r (run, created) = do s ← stored r run; pure (s, created)

unfoldable pub persist_idempotent :
    Rendering → Tenant → CreateArguments → Service (StoredRun × Bool)
unfolding stored_with
persist_idempotent r t args =
    transaction (do made ← with_runs (create_idempotent t args); stored_with r made)

-- `SqlRunPersistence.set_durable_execution_id`
abbrev pub with_durable_id : String → Run → Run
with_durable_id id run = record run { durable_execution_id = some id }

unfoldable pub set_durable_execution_id : Tenant → ℕ → String → Service (Unit {0})
set_durable_execution_id t run_id durable_id = do
  known ← gets (λ p. find_run t run_id p.runs)
  require known (store Runs.run_not_found)
  modify (λ p. record p {
    runs = record p.runs {
      runs = update (run_of t run_id) (with_durable_id durable_id) p.runs.runs;
    };
  })

abbrev stored_if : Rendering → Option Run → Service (Option StoredRun)
stored_if r none = pure none
stored_if r (some run) = do s ← stored r run; pure (some s)

-- `SqlRunPersistence.get_run`
unfoldable pub get_stored : Rendering → Tenant → ℕ → Service (Option StoredRun)
get_stored r t run_id = do known ← gets (λ p. find_run t run_id p.runs); stored_if r known

-- `SqlRunPersistence.request_cancel`; where `_stored` raises, the session is closed uncommitted.
abbrev pub with_cancel : Run → Run
with_cancel run = record run { cancel_requested = true }

unfoldable pub persist_cancel : Rendering → Tenant → ℕ → Service (Option StoredRun)
persist_cancel r t run_id = transaction (do
  modify (λ p. record p {
    runs = record p.runs { runs = update (run_of t run_id) with_cancel p.runs.runs };
  })
  get_stored r t run_id)

abbrev pub is_terminal : RunStatus → Bool
is_terminal completed = true
is_terminal failed = true
is_terminal cancelled = true
is_terminal _ = false
