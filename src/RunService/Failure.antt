-- ===== src/RunService/Failure.antt =====
-- `SqlRunPersistence.finalize_start_failure` of runs/service.py: the events, the trace and the
-- deliveries of a run that could not be started.
use universal_agent_studio.Prelude.{
  ℕ, ◌+◌, ◌==◌, String, Option, none, some, List, [], ◌∷◌, find, Result, ok, err, transaction, ◌>>◌,
}
use universal_agent_studio.Json.{obj, str, field, end}
use universal_agent_studio.Catalog.{Tenant, Catalog}
use universal_agent_studio.Kernel.{RunEvent, EventName}
use universal_agent_studio.Runs.{Run, failed, find_run, append_event, finalize_trace}
use universal_agent_studio.Webhooks.{
  RunOwner, Outbox, WebhookError, Delivery, Trace, enqueue_terminal,
}
use universal_agent_studio.RunDocuments.{
  Rendering, TerminalTrace, event_document, trace_document, outbox_trace,
}
use universal_agent_studio.RunService.{
  Platform, Service, ServiceError, StoredRun, webhook, with_runs,
}

-- `uuid5` on the name of an event, and the identifiers and times that the method draws.
pub record Drawing : Type 0 where
  pub uuid5 : ℕ → EventName → ℕ
  pub fresh_trace_id : ℕ
  pub fresh_delivery_id : ℕ → ℕ
  pub now : ℕ

abbrev pub started_event : Drawing → StoredRun → RunEvent
started_event d run = record {
  event_id = d.uuid5 run.id (record { sequence = 1; type = "run.started"; node_id = none });
  run_id = run.id;
  sequence = 1;
  type = "run.started";
  occurred_at = d.now;
  correlation_id = run.request_id;
  causation_id = run.request_id;
  node_id = none;
  redaction_policy_id = "default-redaction";
  payload = obj (field "agent_version_id" (str run.agent_version_id) end);
}

abbrev pub failed_event : Drawing → StoredRun → String → RunEvent
failed_event d run error_code = record {
  event_id = d.uuid5 run.id (record { sequence = 2; type = "run.failed"; node_id = none });
  run_id = run.id;
  sequence = 2;
  type = "run.failed";
  occurred_at = d.now + 1000;
  correlation_id = run.request_id;
  causation_id = (started_event d run).event_id;
  node_id = none;
  redaction_policy_id = "default-redaction";
  payload = obj (field "code" (str error_code) end);
}

abbrev pub failure_trace : Rendering → Drawing → StoredRun → String → TerminalTrace
failure_trace r d run error_code = record {
  run_id = run.id;
  request_id = run.request_id;
  agent_version_id = run.agent_version_id;
  agent_version_digest = run.agent_version_digest;
  status = failed;
  status_text = "failed";
  started_at = d.now;
  completed_at = d.now + 1000;
  input = run.input;
  events =
      event_document r (started_event d run)
      ∷ event_document r (failed_event d run error_code)
      ∷ [];
  duration_ms = 1;
  error = end;
}

-- The join of runs, agent_versions and agents in `enqueue_terminal`.
abbrev owner_of_version : Catalog → Run → Option RunOwner
owner_of_version c run = elim (find (λ v. v.id == run.agent_version_id) c.versions) [
  | none ↦ none
  | some v ↦ elim (find (λ a. a.id == v.agent_id) c.agents) [
    | none ↦ none
    | some a ↦ some (record { run_id = run.id; agent = a; version = v })
  ]
]

unfoldable pub run_owner : Tenant → ℕ → Platform → Option RunOwner
run_owner t run_id p = elim (find_run t run_id p.runs) [
  | none ↦ none
  | some run ↦ owner_of_version p.catalog run
]

abbrev of_outbox :
    Platform
    → Result WebhookError (List Delivery) × Outbox
    → Result ServiceError (Unit {0}) × Platform
of_outbox p (ok ds, box) = (ok tt, record p { outbox = box })
of_outbox p (err e, box) = (err (webhook e), record p { outbox = box })

unfoldable pub enqueue_for_run : Tenant → ℕ → Drawing → Trace → Service (Unit {0})
enqueue_for_run t run_id d trace p =
    of_outbox p (enqueue_terminal (run_owner t run_id p) t d.fresh_delivery_id d.now trace p.outbox)

-- `finalize_start_failure`
unfoldable pub finalize_start_failure :
    Rendering → Drawing → Tenant → StoredRun → String → Service (Unit {0})
finalize_start_failure r d t run error_code = transaction (do
  with_runs (append_event t d.now run.id (event_document r (started_event d run)))
  with_runs (append_event t d.now run.id (event_document r (failed_event d run error_code)))
  with_runs (
      finalize_trace t d.now d.fresh_trace_id run.id
        (trace_document r (failure_trace r d run error_code)))
  enqueue_for_run t run.id d (outbox_trace (failure_trace r d run error_code)))
