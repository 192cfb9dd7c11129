-- ===== src/Tests/RunService.antt =====
-- A request to the run service, made twice.
use universal_agent_studio.Prelude.{
  ◌≡◌, refl, Bool, true, false, some, ok, if◌then◌else◌, ◌==◌, ◌+◌, [],
}
use universal_agent_studio.Json.{str, obj, field, end}
use universal_agent_studio.Runs.{queued, create_idempotent, find_request, find_run}
use universal_agent_studio.Runs.Lifecycle.{empty}
use universal_agent_studio.RunDocuments.{Rendering}
use universal_agent_studio.RunService.{
  Platform, persist_idempotent, set_durable_execution_id, stored,
}
use universal_agent_studio.RunService.Failure.{Drawing}
use universal_agent_studio.RunService.Requests.{
  CreateRunRequest, CreateRunView, Outside, StoredAgentVersion, requested, create_resolved_run,
  run_created, start_durable,
}
use universal_agent_studio.RunService.Repeated.{create_resolved_run-repeated}
use universal_agent_studio.Tests.Samples.{catalog, home, spec}

abbrev pub rendering : Rendering
rendering = record {
  uuid = λ n. if n == 1 then "1" else "2";
  timestamp = λ n. "1970-01-01T00:00:00Z";
  version_id = λ key n. "calculator-agent-v1";
}

abbrev pub outside : Outside
outside = record {
  rendering = rendering;
  input_valid = λ spec input. true;
  content_digest = λ request. request.idempotency_key;
  start_run = λ command. some "run-70";
  request_cancel = λ run_id. requested;
}

abbrev pub drawing : Drawing
drawing = record {
  uuid5 = λ n name. n + name.sequence;
  fresh_trace_id = 90;
  fresh_delivery_id = λ n. n;
  now = 1000;
}

abbrev request : CreateRunRequest
request = record {
  request_id = 60;
  agent_version_id = "calculator-agent-v1";
  agent_version_digest = "d0";
  idempotency_key = "key-1";
  input = obj (field "question" (str "1 + 1") end);
  locale = "en-US";
}

abbrev version : StoredAgentVersion
version = record { id = 8; public_id = "calculator-agent-v1"; digest = "d0"; agent_spec = spec }

abbrev pub platform : Platform
platform = record {
  catalog = catalog;
  runs = empty;
  outbox = record { subscriptions = []; deliveries = [] };
  asked = [];
}

abbrev answer : Bool → CreateRunView
answer reused = record { run_id = 70; request_id = 60; status = queued; reused = reused }

abbrev answered : Platform
answered = (create_resolved_run outside drawing home 70 request version platform).1

first_answer :
    (create_resolved_run outside drawing home 70 request version platform).0 ≡ ok (answer false)
unfolding create_resolved_run run_created start_durable persist_idempotent set_durable_execution_id
    stored create_idempotent find_request find_run
first_answer = refl

create_resolved_run-repeated_example :
    create_resolved_run outside drawing home 71 request version answered
    ≡ (ok (answer true), answered)
create_resolved_run-repeated_example =
    create_resolved_run-repeated outside drawing drawing home 70 71 request version platform
      (answer false) first_answer
