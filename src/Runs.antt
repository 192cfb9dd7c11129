-- ===== src/Runs.antt =====
-- libs/python/platform_store/src/universal_agent_platform_store/repositories/runs.py: idempotent
-- creation of runs, their events and their terminal trace. A document is its parsed columns and its
-- content, which `==` compares. The advisory lock and the row locks make each method atomic.
pub mod Lifecycle
pub mod Order
pub mod Idempotency
use universal_agent_studio.Prelude.{
  ℕ, ◌==◌, ltb, leb, String, str_eq, if◌then◌else◌, Bool, true, false, ◌&&◌, ◌||◌, Option, none,
  some, List, [], ◌∷◌, find, keep, update, Exec, pure, require, gets, modify, guard, ◌>>=◌, ◌>>◌,
}
use universal_agent_studio.Json.{Json, json_eq, obj, end}
use universal_agent_studio.Catalog.{Tenant, in_tenant}

pub data RunStatus : Type 0 where
  queued running completed failed cancelled : RunStatus

abbrev pub is_queued : RunStatus → Bool
is_queued queued = true
is_queued _ = false

pub record Run : Type 0 where
  pub id : ℕ
  pub workspace_id : ℕ
  pub project_id : ℕ
  pub agent_version_id : ℕ
  pub status : RunStatus
  pub locale : String
  pub input_document : Json
  pub output_document : Option Json
  pub durable_execution_id : Option String
  pub cancel_requested : Bool
  pub started_at : Option ℕ
  pub completed_at : Option ℕ

pub record RunRequest : Type 0 where
  pub id : ℕ
  pub workspace_id : ℕ
  pub project_id : ℕ
  pub idempotency_key : String
  pub request_digest : String
  pub resolved_run_id : ℕ

-- A RunEvent document.
pub record EventDocument : Type 0 where
  pub event_id : ℕ
  pub sequence : ℕ
  pub type : String
  pub node_id : Option String
  pub occurred_at : Option ℕ  -- none where it is not a text: `_parse_timestamp` takes the clock
  pub content : Json

pub record EventRecord : Type 0 where
  pub id : ℕ
  pub workspace_id : ℕ
  pub project_id : ℕ
  pub run_id : ℕ
  pub sequence : ℕ
  pub event_type : String
  pub node_id : Option String
  pub occurred_at : ℕ
  pub document : EventDocument

-- A RunTrace document.
pub record TraceDocument : Type 0 where
  pub status : RunStatus
  pub output : Option Json
  pub content : Json

pub record TraceRecord : Type 0 where
  pub id : ℕ
  pub workspace_id : ℕ
  pub project_id : ℕ
  pub run_id : ℕ
  pub document : TraceDocument

pub record RunTables : Type 0 where
  pub runs : List Run
  pub requests : List RunRequest
  pub events : List EventRecord
  pub traces : List TraceRecord

pub data RunError : Type 0 where
  idempotency_key_reused resolved_run_missing run_event_conflict run_not_found : RunError
  run_trace_already_finalized : RunError

abbrev pub RunAction : Type 0 → Type 0
RunAction A = Exec RunError RunTables A

abbrev pub request_of : Tenant → String → RunRequest → Bool
request_of t key r = in_tenant t r.workspace_id r.project_id && str_eq key r.idempotency_key

abbrev pub run_of : Tenant → ℕ → Run → Bool
run_of t id r = in_tenant t r.workspace_id r.project_id && id == r.id

abbrev pub trace_of : Tenant → ℕ → TraceRecord → Bool
trace_of t run_id r = in_tenant t r.workspace_id r.project_id && run_id == r.run_id

abbrev pub event_of_run : Tenant → ℕ → EventRecord → Bool
event_of_run t run_id e = in_tenant t e.workspace_id e.project_id && run_id == e.run_id

unfoldable pub find_request : Tenant → String → RunTables → Option RunRequest
find_request t key db = find (request_of t key) db.requests

unfoldable pub find_run : Tenant → ℕ → RunTables → Option Run
find_run t id db = find (run_of t id) db.runs

unfoldable pub find_trace : Tenant → ℕ → RunTables → Option TraceRecord
find_trace t run_id db = find (trace_of t run_id) db.traces

pub record CreateArguments : Type 0 where
  pub request_id : ℕ
  pub idempotency_key : String
  pub request_digest : String
  pub agent_version_id : ℕ
  pub input_document : Json
  pub locale : String
  pub fresh_run_id : ℕ

abbrev pub new_run : Tenant → CreateArguments → Run
new_run t args = record {
  id = args.fresh_run_id;
  workspace_id = t.workspace_id;
  project_id = t.project_id;
  agent_version_id = args.agent_version_id;
  status = queued;
  locale = args.locale;
  input_document = args.input_document;
  output_document = none;
  durable_execution_id = none;
  cancel_requested = false;
  started_at = none;
  completed_at = none;
}

abbrev pub new_request : Tenant → CreateArguments → RunRequest
new_request t args = record {
  id = args.request_id;
  workspace_id = t.workspace_id;
  project_id = t.project_id;
  idempotency_key = args.idempotency_key;
  request_digest = args.request_digest;
  resolved_run_id = args.fresh_run_id;
}

create_for : Tenant → CreateArguments → Option RunRequest → RunAction (Run × Bool)
create_for t args (some existing) = do
  guard (str_eq existing.request_digest args.request_digest) idempotency_key_reused
  resolved ← gets (find_run t existing.resolved_run_id)
  run ← require resolved resolved_run_missing
  pure (run, false)
create_for t args none = do
  modify (λ db. record db {
    runs = new_run t args ∷ db.runs;
    requests = new_request t args ∷ db.requests;
  })
  pure (new_run t args, true)

-- `RunRepository.create_idempotent`
unfoldable pub create_idempotent : Tenant → CreateArguments → RunAction (Run × Bool)
unfolding create_for
create_idempotent t args = do
  existing ← gets (find_request t args.idempotency_key)
  create_for t args existing

-- `existing.document == document`
abbrev pub same_event : EventDocument → EventDocument → Bool
same_event a b = json_eq a.content b.content

-- The row with the same identifier, or with the same run and sequence.
abbrev pub collides : Tenant → ℕ → EventDocument → EventRecord → Bool
collides t run_id d e =
    in_tenant t e.workspace_id e.project_id
    && (d.event_id == e.id || run_id == e.run_id && d.sequence == e.sequence)

unfoldable pub find_event : Tenant → ℕ → EventDocument → RunTables → Option EventRecord
find_event t run_id d db = find (collides t run_id d) db.events

-- `_parse_timestamp`
abbrev pub parse_timestamp : ℕ → Option ℕ → ℕ
parse_timestamp now none = now
parse_timestamp now (some at) = at

abbrev pub event_record : Tenant → ℕ → ℕ → EventDocument → EventRecord
event_record t now run_id d = record {
  id = d.event_id;
  workspace_id = t.workspace_id;
  project_id = t.project_id;
  run_id = run_id;
  sequence = d.sequence;
  event_type = d.type;
  node_id = d.node_id;
  occurred_at = parse_timestamp now d.occurred_at;
  document = d;
}

-- `if run.status == "queued"`
abbrev pub started : ℕ → Run → Run
started at r = if is_queued r.status then record r { status = running; started_at = some at } else r

start_run : Tenant → ℕ → ℕ → RunAction (Unit {0})
start_run t run_id at = do
  known ← gets (find_run t run_id)
  require known run_not_found
  modify (λ db. record db { runs = update (run_of t run_id) (started at) db.runs })

append_new : Tenant → ℕ → ℕ → EventDocument → RunAction (EventRecord × Bool)
unfolding start_run
append_new t now run_id d = do
  let row = event_record t now run_id d
  modify (λ db. record db { events = row ∷ db.events })
  if str_eq d.type "run.started" then start_run t run_id row.occurred_at else pure tt
  pure (row, true)

append_for : Tenant → ℕ → ℕ → EventDocument → Option EventRecord → RunAction (EventRecord × Bool)
unfolding append_new
append_for t now run_id d (some existing) = do
  guard (existing.run_id == run_id && same_event existing.document d) run_event_conflict
  pure (existing, false)
append_for t now run_id d none = append_new t now run_id d

-- `RunRepository.append_event`; `now` is what the clock says.
unfoldable pub append_event : Tenant → ℕ → ℕ → EventDocument → RunAction (EventRecord × Bool)
unfolding append_for
append_event t now run_id d = do
  existing ← gets (find_event t run_id d)
  append_for t now run_id d existing

abbrev output_or_empty : Option Json → Json
output_or_empty none = obj end
output_or_empty (some output) = output

abbrev pub finished : ℕ → TraceDocument → Run → Run
finished now d r = record r {
  status = d.status;
  output_document = some (output_or_empty d.output);
  completed_at = some now;
}

finalize_for :
    Tenant → ℕ → ℕ → ℕ → TraceDocument → Option TraceRecord → RunAction (TraceRecord × Bool)
finalize_for t now fresh run_id d (some existing) = do
  guard (json_eq existing.document.content d.content) run_trace_already_finalized
  pure (existing, false)
finalize_for t now fresh run_id d none = do
  known ← gets (find_run t run_id)
  run ← require known run_not_found
  let row : TraceRecord = record {
    id = fresh;
    workspace_id = t.workspace_id;
    project_id = t.project_id;
    run_id = run.id;
    document = d;
  }
  modify (λ db. record db {
    runs = update (run_of t run_id) (finished now d) db.runs;
    traces = row ∷ db.traces;
  })
  pure (row, true)

-- `RunRepository.finalize_trace`
unfoldable pub finalize_trace : Tenant → ℕ → ℕ → ℕ → TraceDocument → RunAction (TraceRecord × Bool)
unfolding finalize_for
finalize_trace t now fresh run_id d = do
  existing ← gets (find_trace t run_id)
  finalize_for t now fresh run_id d existing

-- `.order_by(RunEventRecord.sequence)`
unfoldable pub insert_ordered : EventRecord → List EventRecord → List EventRecord
insert_ordered e [] = e ∷ []
insert_ordered e (f ∷ fs) =
    let later = f ∷ insert_ordered e fs in if leb e.sequence f.sequence then e ∷ f ∷ fs else later

unfoldable pub order_events : List EventRecord → List EventRecord
unfolding insert_ordered
order_events [] = []
order_events (e ∷ es) = insert_ordered e (order_events es)

-- `RunRepository.list_events`
unfoldable pub list_events : Tenant → ℕ → ℕ → RunTables → List EventRecord
unfolding order_events
list_events t run_id after db =
    order_events (keep (λ e. event_of_run t run_id e && ltb after e.sequence) db.events)
