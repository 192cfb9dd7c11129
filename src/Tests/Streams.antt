-- ===== src/Tests/Streams.antt =====
-- A stream of two polls: the first sees a run that is being executed, the second sees it completed.
use universal_agent_studio.Prelude.{
  ℕ, String, ◌≡◌, refl, true, false, none, some, ok, List, [], ◌∷◌, ◌+◌, All,
}
use universal_agent_studio.Json.{Json, str, obj, field, end}
use universal_agent_studio.Runs.{
  RunStatus, running, completed, RunTables, EventDocument, EventRecord, Run, event_record, find_run,
}
use universal_agent_studio.RunService.{Platform, StoredRun, stored, get_stored}
use universal_agent_studio.RunService.Requests.{get_run}
use universal_agent_studio.Streams.{Poll, stream_run_events}
use universal_agent_studio.Streams.Ascending.{Sees, AscendsAbove, stream_run_events-AscendsAbove}
use universal_agent_studio.Streams.Ending.{stream_run_events-ended}
use universal_agent_studio.Tests.Samples.{home}
use universal_agent_studio.Tests.RunService.{platform, outside}

abbrev question : Json
question = obj (field "question" (str "1 + 1") end)

abbrev run : RunStatus → Run
run status = record {
  id = 70;
  workspace_id = 1;
  project_id = 10;
  agent_version_id = 8;
  status = status;
  locale = "en-US";
  input_document = question;
  output_document = none;
  durable_execution_id = some "run-70";
  cancel_requested = false;
  started_at = some 100;
  completed_at = none;
}

abbrev document : ℕ → String → EventDocument
document n type = record {
  event_id = 80 + n;
  sequence = n;
  type = type;
  node_id = none;
  occurred_at = some 100;
  content = question;
}

abbrev started : EventRecord
started = event_record home 100 70 (document 1 "run.started")

abbrev finished : EventRecord
finished = event_record home 100 70 (document 2 "run.completed")

abbrev pub tables : RunStatus → List EventRecord → RunTables
tables status events = record {
  runs = run status ∷ [];
  requests =
      record {
        id = 60;
        workspace_id = 1;
        project_id = 10;
        idempotency_key = "key-1";
        request_digest = "d";
        resolved_run_id = 70;
      }
      ∷ [];
  events = events;
  traces = [];
}

abbrev during : Platform
during = record platform { runs = tables running (started ∷ []) }

abbrev pub afterwards : Platform
afterwards = record platform { runs = tables completed (finished ∷ started ∷ []) }

abbrev first : Poll
first = record { disconnected = false; listed = during; checked = during; idle = true }

abbrev second : Poll
second = record { disconnected = false; listed = afterwards; checked = afterwards; idle = false }

seen : All Sees (first ∷ second ∷ [])
seen = (
  record { sequenced = (tt, tt); numbered = (refl, tt) },
  (record { sequenced = ((refl, tt), (tt, tt)); numbered = (refl, (refl, tt)) }, tt),
)

stream_run_events-AscendsAbove_example :
    AscendsAbove 0 (stream_run_events outside home 70 (first ∷ second ∷ []) 0).0
stream_run_events-AscendsAbove_example =
    stream_run_events-AscendsAbove outside home 70 (first ∷ second ∷ []) seen 0

abbrev pub stored_run : StoredRun
stored_run = record {
  id = 70;
  request_id = 60;
  workspace_id = 1;
  project_id = 10;
  agent_version_internal_id = 8;
  agent_version_id = "calculator-agent-v1";
  agent_version_digest = "d0";
  status = completed;
  locale = "en-US";
  input = question;
  output = none;
  durable_execution_id = some "run-70";
  cancel_requested = false;
}

found : (get_run outside home 70 afterwards).0 ≡ ok stored_run
unfolding get_run get_stored stored find_run
found = refl

stream_run_events-ended_example :
    stream_run_events outside home 70 (first ∷ second ∷ first ∷ [])
    ≡ stream_run_events outside home 70 (first ∷ second ∷ [])
stream_run_events-ended_example =
    stream_run_events-ended outside home 70 second (first ∷ []) stored_run found refl (first ∷ [])
