-- ===== src/Kernel/Recorder.antt =====
-- kernel/execution/events.py, EventRecorder, and `validate_run_trace` of contracts/validation.py.
use universal_agent_studio.Prelude.{
  ℕ, suc, ◌==◌, String, str_eq, str_mem, Bool, true, false, ◌&&◌, ◌||◌, not, Option, none, some,
  List, [], ◌∷◌, ◌++◌, length, any, all, last?,
}
use universal_agent_studio.Kernel.{RunEvent, ExecutionCommand, Ports, Emission, RunTrace}

abbrev pub event_id_or : ℕ → Option RunEvent → ℕ
event_id_or request_id none = request_id
event_id_or request_id (some e) = e.event_id

-- The event that `emit` makes behind `count` others, the last of which is the cause.
abbrev pub new_event : Ports → ExecutionCommand → ℕ → ℕ → Emission → RunEvent
new_event ports command count cause e = record {
  event_id =
      ports.uuid5 command.run_id
        (record { sequence = suc count; type = e.type; node_id = e.node_id });
  run_id = command.run_id;
  sequence = suc count;
  type = e.type;
  occurred_at = e.occurred_at;
  correlation_id = command.request_id;
  causation_id = cause;
  node_id = e.node_id;
  redaction_policy_id = ports.policy_id;
  payload = ports.redact e.payload;
}

-- `EventRecorder.emit`, on the events of the recorder.
unfoldable pub emit : Ports → ExecutionCommand → Emission → List RunEvent → List RunEvent
emit ports command e events =
    events
    ++ new_event ports command (length events) (event_id_or command.request_id (last? events)) e
      ∷ []

-- `sequences != list(range(1, len(events) + 1))`, negated
unfoldable pub numbered_from : ℕ → List RunEvent → Bool
numbered_from n [] = true
numbered_from n (e ∷ es) = e.sequence == n && numbered_from (suc n) es

unfoldable pub distinct_ids : List RunEvent → Bool
distinct_ids [] = true
distinct_ids (e ∷ es) = not (any (λ f. e.event_id == f.event_id) es) && distinct_ids es

-- The first event is caused by the request, each other one by the one before.
unfoldable pub caused_from : ℕ → List RunEvent → Bool
caused_from cause [] = true
caused_from cause (e ∷ es) = e.causation_id == cause && caused_from e.event_id es

abbrev pub has_type : (String → Bool) → Option RunEvent → Bool
has_type p none = true
has_type p (some e) = p e.type

abbrev pub first? : List RunEvent → Option RunEvent
first? [] = none
first? (e ∷ es) = some e

abbrev pub terminal_types : List String
terminal_types = "run.cancelled" ∷ "run.completed" ∷ "run.failed" ∷ []

abbrev pub expected_terminal : String → String → Bool
expected_terminal status type =
    str_eq status "cancelled" && str_eq type "run.cancelled"
    || (str_eq status "completed" && str_eq type "run.completed"
        || str_eq status "failed" && str_eq type "run.failed")

abbrev unless : Bool → String → List String
unless true code = []
unless false code = code ∷ []

-- `validate_run_trace`: the codes of the errors found.
unfoldable pub validate_run_trace : RunTrace → List String
validate_run_trace trace =
    unless (numbered_from 1 trace.events) "event_sequence_invalid"
    ++ unless (distinct_ids trace.events) "duplicate_event_id"
    ++ unless (all (λ e. e.run_id == trace.run_id) trace.events) "event_run_mismatch"
    ++ unless
        (has_type (λ type. str_eq type "run.started") (first? trace.events)
          && (has_type (λ type. str_mem type terminal_types) (last? trace.events)
              && has_type (expected_terminal trace.status) (last? trace.events)))
        "event_lifecycle_invalid"
    ++ unless (caused_from trace.request_id trace.events) "event_causation_invalid"
    ++ unless (all (λ e. str_eq e.redaction_policy_id trace.redaction_policy_id) trace.events)
        "redaction_policy_mismatch"
