-- ===== src/RunDocuments.antt =====
-- kernel/domain.py, `RunEvent.to_document`, and the documents of terminal traces without output that
-- runs/service.py and activities/execution.py build, with what the run repository and the outbox
-- read of them. `str(uuid)`, `str(int)` and the formatting of times are functions of a record.
use universal_agent_studio.Prelude.{ℕ, String, Option, none, some, List, [], ◌∷◌, map}
use universal_agent_studio.Json.{
  Json, Items, Fields, null, get, obj, arr, str, int, pos, nil, cons, field, end,
}
use universal_agent_studio.Kernel.{RunEvent}
use universal_agent_studio.Runs.{RunStatus, EventDocument, TraceDocument}
use universal_agent_studio.Webhooks.{Trace, TraceEvent}

pub record Rendering : Type 0 where
  pub uuid : ℕ → String
  pub timestamp : ℕ → String
  pub version_id : String → ℕ → String  -- f"{agent_key}-v{version_number}"

abbrev node_field : Option String → Fields
node_field none = end
node_field (some node_id) = field "node_id" (str node_id) end

-- `RunEvent.to_document`
unfoldable pub to_document : Rendering → RunEvent → Json
to_document r e = obj (
    field "schema_version" (str "0.1.0") (
      field "event_id" (str (r.uuid e.event_id)) (
        field "run_id" (str (r.uuid e.run_id)) (
          field "sequence" (int (pos e.sequence)) (
            field "type" (str e.type) (
              field "occurred_at" (str (r.timestamp e.occurred_at)) (
                field "correlation_id" (str (r.uuid e.correlation_id)) (
                  field "causation_id" (str (r.uuid e.causation_id)) (
                    field "redaction_policy_id" (str e.redaction_policy_id)
                      (field "payload" e.payload (node_field e.node_id)))))))))))

-- The document, with what `append_event` reads of it.
abbrev pub event_document : Rendering → RunEvent → EventDocument
event_document r e = record {
  event_id = e.event_id;
  sequence = e.sequence;
  type = e.type;
  node_id = e.node_id;
  occurred_at = some e.occurred_at;
  content = to_document r e;
}

-- A trace of a run that ended without output.
pub record TerminalTrace : Type 0 where
  pub run_id : ℕ
  pub request_id : ℕ
  pub agent_version_id : String
  pub agent_version_digest : String
  pub status : RunStatus
  pub status_text : String
  pub started_at : ℕ
  pub completed_at : ℕ
  pub input : Json
  pub events : List EventDocument
  pub duration_ms : ℕ
  pub error : Fields  -- the field `error`, where there is one

abbrev items : List EventDocument → Items
items [] = nil
items (e ∷ es) = cons e.content (items es)

abbrev provenance : Json
provenance = obj (
    field "model_resolutions" (arr nil) (
      field "tool_resolutions" (arr nil)
        (field "redaction_policy_id" (str "default-redaction") end)))

abbrev metrics : ℕ → Json
metrics duration_ms = obj (
    field "duration_ms" (int (pos duration_ms)) (
      field "input_tokens" (int (pos 0)) (
        field "output_tokens" (int (pos 0)) (
          field "tool_calls" (int (pos 0)) (
            field "cost" (obj (field "amount" (int (pos 0)) (field "currency" (str "USD") end)))
              end)))))

unfoldable pub trace_content : Rendering → TerminalTrace → Json
trace_content r t = obj (
    field "schema_version" (str "0.1.0") (
      field "run_id" (str (r.uuid t.run_id)) (
        field "request_id" (str (r.uuid t.request_id)) (
          field "agent_version_id" (str t.agent_version_id) (
            field "agent_version_digest" (str t.agent_version_digest) (
              field "status" (str t.status_text) (
                field "started_at" (str (r.timestamp t.started_at)) (
                  field "completed_at" (str (r.timestamp t.completed_at)) (
                    field "input" t.input (
                      field "output" (obj end) (
                        field "events" (arr (items t.events)) (
                          field "node_executions" (arr nil) (
                            field "provenance" provenance
                              (field "metrics" (metrics t.duration_ms) t.error))))))))))))))

-- The document, with what `finalize_trace` reads of it.
abbrev pub trace_document : Rendering → TerminalTrace → TraceDocument
trace_document r t = record {
  status = t.status;
  output = some (obj end);
  content = trace_content r t;
}

-- The document, with what `enqueue_terminal` reads of it.
abbrev or_null : Option Json → Json
or_null none = null
or_null (some v) = v

abbrev get_or_null : String → Json → Json
get_or_null key (obj fs) = or_null (get key fs)
get_or_null key _ = null

abbrev trace_event : EventDocument → TraceEvent
trace_event e = record {
  type = e.type;
  sequence = e.sequence;
  occurred_at = get_or_null "occurred_at" e.content;
}

abbrev pub outbox_trace : TerminalTrace → Trace
outbox_trace t = record {
  events = map (trace_event) t.events;
  status = t.status_text;
  output = some (obj end);
}
