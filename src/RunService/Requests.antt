-- ===== src/RunService/Requests.antt =====
-- Class RunService of runs/service.py. The validation of inputs, the digest of documents and the
-- durable execution are functions of a record.
use universal_agent_studio.Prelude.{
  ℕ, String, str_eq, Bool, not, ◌&&◌, is_some, Option, none, some, List, ◌∷◌, if◌then◌else◌, Result,
  ok, err, pure, raise, require, guard, gets, modify, ◌>>=◌, ◌>>◌,
}
use universal_agent_studio.Json.{Json}
use universal_agent_studio.Catalog.{Tenant}
use universal_agent_studio.Runs.{
  RunStatus, CreateArguments, EventRecord, idempotency_key_reused, is_queued, find_trace,
  list_events,
}
use universal_agent_studio.RunDocuments.{Rendering}
use universal_agent_studio.RunService.{
  Asked, start, cancel, DurableCommand, Platform, Service, ServiceError, StoredRun, is_terminal,
  persist_idempotent, persist_cancel, set_durable_execution_id, get_stored, agent_version_not_found,
  agent_version_digest_mismatch, run_input_invalid, key_reused, durable_execution_unavailable,
  run_not_found, run_not_terminal, run_trace_unavailable, store,
}
use universal_agent_studio.RunService.Failure.{Drawing, finalize_start_failure}

pub record CreateRunRequest : Type 0 where
  pub request_id : ℕ
  pub agent_version_id : String
  pub agent_version_digest : String
  pub idempotency_key : String
  pub input : Json
  pub locale : String

pub record StoredAgentVersion : Type 0 where
  pub id : ℕ
  pub public_id : String
  pub digest : String
  pub agent_spec : Json

pub data CancellationStatus : Type 0 where
  requested already_terminal not_found : CancellationStatus

-- `start_run` gives none where it raises.
pub record Outside : Type 0 where
  pub rendering : Rendering
  pub input_valid : Json → Json → Bool
  pub content_digest : CreateRunRequest → String
  pub start_run : DurableCommand → Option String
  pub request_cancel : ℕ → CancellationStatus

abbrev pub new_arguments : Outside → CreateRunRequest → StoredAgentVersion → ℕ → CreateArguments
new_arguments o request version fresh = record {
  request_id = request.request_id;
  idempotency_key = request.idempotency_key;
  request_digest = o.content_digest request;
  agent_version_id = version.id;
  input_document = request.input;
  locale = request.locale;
  fresh_run_id = fresh;
}

-- `_command`
abbrev pub command_of : StoredRun → StoredAgentVersion → DurableCommand
command_of run version = record {
  run_id = run.id;
  request_id = run.request_id;
  workspace_id = run.workspace_id;
  project_id = run.project_id;
  agent_version_id = run.agent_version_id;
  agent_version_digest = run.agent_version_digest;
  agent_spec = version.agent_spec;
  input = run.input;
  locale = run.locale;
}

pub record CreateRunView : Type 0 where
  pub run_id : ℕ
  pub request_id : ℕ
  pub status : RunStatus
  pub reused : Bool

abbrev pub view : StoredRun → Bool → CreateRunView
view run created = record {
  run_id = run.id;
  request_id = run.request_id;
  status = run.status;
  reused = not created;
}

-- `except IdempotencyConflict as error: raise ApiError(409, "idempotency_key_reused")`
abbrev conflict : ServiceError → ServiceError
conflict (store idempotency_key_reused) = key_reused
conflict e = e

abbrev translated :
    {A : Type 0}
    → (ServiceError → ServiceError)
    → Result ServiceError A × Platform
    → Result ServiceError A × Platform
translated f (ok a, p) = (ok a, p)
translated f (err e, p) = (err (f e), p)

abbrev catching : {A : Type 0} → (ServiceError → ServiceError) → Service A → Service A
catching f m p = translated f (m p)

abbrev pub log : Asked → Platform → Platform
log a p = record p { asked = a ∷ p.asked }

start_answered : Outside → Drawing → Tenant → StoredRun → Option String → Service (Unit {0})
start_answered o d t run none = do
  finalize_start_failure o.rendering d t run "durable_execution_unavailable"
  raise durable_execution_unavailable
start_answered o d t run (some durable_id) =
    catching (λ e. durable_execution_unavailable) (set_durable_execution_id t run.id durable_id)

-- The durable execution of a run that has none yet.
abbrev pub needs_start : StoredRun → Bool
needs_start run = is_queued run.status && not (is_some run.durable_execution_id)

unfoldable pub start_durable :
    Outside → Drawing → Tenant → StoredRun → StoredAgentVersion → Service (Unit {0})
unfolding start_answered
start_durable o d t run version = do
  let command = command_of run version
  modify (log (start command))
  start_answered o d t run (o.start_run command)

unfoldable pub run_created :
    Outside → Drawing → Tenant → StoredAgentVersion → StoredRun × Bool → Service CreateRunView
run_created o d t version (run, created) = do
  if needs_start run then start_durable o d t run version else pure tt
  pure (view run created)

-- `create_resolved_run`
unfoldable pub create_resolved_run :
    Outside → Drawing → Tenant → ℕ → CreateRunRequest → StoredAgentVersion → Service CreateRunView
create_resolved_run o d t fresh request version = do
  guard (str_eq version.public_id request.agent_version_id) agent_version_not_found
  guard (str_eq version.digest request.agent_version_digest) agent_version_digest_mismatch
  guard (o.input_valid version.agent_spec request.input) run_input_invalid
  made ←
      catching conflict (persist_idempotent o.rendering t (new_arguments o request version fresh))
  run_created o d t version made

-- `get_run`
unfoldable pub get_run : Outside → Tenant → ℕ → Service StoredRun
get_run o t run_id = do found ← get_stored o.rendering t run_id; require found run_not_found

ask_cancel : Outside → ℕ → Service CancellationStatus
ask_cancel o run_id = do modify (log (cancel run_id)); pure (o.request_cancel run_id)

-- `cancel_run`
unfoldable pub cancel_run : Outside → Tenant → ℕ → Service CancellationStatus
unfolding ask_cancel
cancel_run o t run_id = do
  found ← persist_cancel o.rendering t run_id
  run ← require found run_not_found
  if is_terminal run.status then pure already_terminal else ask_cancel o run_id

-- `list_events`
unfoldable pub list_run_events : Outside → Tenant → ℕ → ℕ → Service (List EventRecord)
list_run_events o t run_id after_sequence = do
  get_run o t run_id
  gets (λ p. list_events t run_id after_sequence p.runs)

-- `get_trace`
abbrev missing_trace : StoredRun → ServiceError
missing_trace run = if is_terminal run.status then run_trace_unavailable else run_not_terminal

unfoldable pub get_trace : Outside → Tenant → ℕ → Service Json
get_trace o t run_id = do
  run ← get_run o t run_id
  found ← gets (λ p. find_trace t run_id p.runs)
  trace ← require found (missing_trace run)
  pure trace.document.content
