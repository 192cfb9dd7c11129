-- ===== src/Tests/Runs.antt =====
-- Witnesses for the theorems about runs: one run, its events and its trace.
use universal_agent_studio.Prelude.{
  ℕ, ◌≡◌, ◌≢◌, refl, String, true, false, none, some, ok, err, [], ◌∷◌, arith, eq_iff,
}
use universal_agent_studio.Json.{Json, str, int, pos, obj, get, field, end}
use universal_agent_studio.Runs.{
  completed, RunTables, CreateArguments, EventDocument, EventRecord, TraceDocument, TraceRecord,
  create_idempotent, append_event, finalize_trace, list_events, order_events, find_request,
  find_run, find_event, find_trace, new_run, event_record, idempotency_key_reused, insert_ordered,
}
use universal_agent_studio.Runs.Idempotency.{
  create_idempotent-reused, append_event-repeated, finalize_trace-repeated,
}
use universal_agent_studio.Runs.Lifecycle.{
  creates, appends, finalizes, perform, empty, status, final_status, Reaches, start, step,
  IsCoherent, Reaches-IsCoherent, perform-final,
}
use universal_agent_studio.Runs.Order.{IsSequenced, list_events_resumed, append_event-IsSequenced}
use universal_agent_studio.Tests.Samples.{home}

program : Unit {0}
unfolding get create_idempotent append_event finalize_trace list_events find_request find_run
    find_event find_trace status final_status perform order_events insert_ordered
program = tt

abbrev arguments : String → ℕ → CreateArguments
arguments digest fresh = record {
  request_id = 60;
  idempotency_key = "key-1";
  request_digest = digest;
  agent_version_id = 8;
  input_document = obj (field "question" (str "1 + 1") end);
  locale = "en";
  fresh_run_id = fresh;
}

abbrev content : ℕ → Json
content n = obj (field "sequence" (int (pos n)) (field "type" (str "run.started") end))

abbrev event : ℕ → ℕ → EventDocument
event id n = record {
  event_id = id;
  sequence = n;
  type = "run.started";
  node_id = none;
  occurred_at = some 100;
  content = content n;
}

abbrev trace : TraceDocument
trace = record {
  status = completed;
  output = none;
  content = obj (field "status" (str "completed") end);
}

abbrev made : RunTables
made = perform home (creates (arguments "d" 70)) empty

abbrev begun : RunTables
begun = perform home (appends 100 70 (event 80 1)) made

abbrev ended : RunTables
ended = perform home (finalizes 200 90 70 trace) begun

accepted :
    (create_idempotent home (arguments "d" 70) empty).0 ≡ ok (new_run home (arguments "d" 70), true)
unfolding program
accepted = refl

differs : (◌≢◌ {A = String} "e" "d")
differs = λ h. ground (arith, eq_iff "e" "d", h)

create_idempotent-reused_example :
    create_idempotent home (arguments "e" 71) (create_idempotent home (arguments "d" 70) empty).1
    ≡ (err idempotency_key_reused, (create_idempotent home (arguments "d" 70) empty).1)
create_idempotent-reused_example =
    create_idempotent-reused home (arguments "d" 70) (arguments "e" 71) empty
      (new_run home (arguments "d" 70)) true refl accepted differs

abbrev row : ℕ → ℕ → EventRecord
row id n = event_record home 100 70 (event id n)

appended : (append_event home 100 70 (event 80 1) made).0 ≡ ok (row 80 1, true)
unfolding program
appended = refl

append_event-repeated_example :
    append_event home 150 70 (event 80 1) (append_event home 100 70 (event 80 1) made).1
    ≡ (ok (row 80 1, false), (append_event home 100 70 (event 80 1) made).1)
unfolding program
append_event-repeated_example =
    append_event-repeated home 100 150 70 (event 80 1) made (row 80 1) true
      (refl, tt, (refl, tt, tt)) appended

abbrev kept : TraceRecord
kept = record { id = 90; workspace_id = 1; project_id = 10; run_id = 70; document = trace }

finalized : (finalize_trace home 200 90 70 trace begun).0 ≡ ok (kept, true)
unfolding program
finalized = refl

finalize_trace-repeated_example :
    finalize_trace home 250 91 70 trace (finalize_trace home 200 90 70 trace begun).1
    ≡ (ok (kept, false), (finalize_trace home 200 90 70 trace begun).1)
unfolding program
finalize_trace-repeated_example =
    finalize_trace-repeated home 200 250 90 91 70 trace begun kept true (refl, tt, tt) finalized

reached : Reaches ended
unfolding program
reached =
    step home (finalizes 200 90 70 trace)
      (step home (appends 100 70 (event 80 1))
        (step home (creates (arguments "d" 70)) start (λ u. refl)) tt)
      refl

Reaches-IsCoherent_example : IsCoherent ended
Reaches-IsCoherent_example = Reaches-IsCoherent reached

final : final_status home 70 ended ≡ some completed
unfolding program
final = refl

perform-final_example :
    (final_status home 70 (perform home (appends 300 70 (event 81 2)) ended) ≡ some completed)
    × (status home 70 (perform home (appends 300 70 (event 81 2)) ended) ≡ some completed)
perform-final_example =
    perform-final home home 70 (appends 300 70 (event 81 2)) ended (Reaches-IsCoherent reached) tt
      final

abbrev stored : RunTables
stored = record {
  runs = [];
  requests = [];
  events = row 82 3 ∷ row 80 1 ∷ row 81 2 ∷ [];
  traces = [];
}

stored-IsSequenced : IsSequenced stored.events
stored-IsSequenced = ((refl, (refl, tt)), ((refl, tt), (tt, tt)))

listed : list_events home 70 0 stored ≡ row 80 1 ∷ row 81 2 ∷ row 82 3 ∷ []
unfolding program
listed = refl

list_events_resumed_example : list_events home 70 2 stored ≡ row 82 3 ∷ []
list_events_resumed_example =
    list_events_resumed home 70 0 stored (row 80 1 ∷ []) (row 82 3 ∷ []) (row 81 2)
      stored-IsSequenced listed

append_event-IsSequenced_example :
    IsSequenced (append_event home 100 70 (event 83 4) stored).1.events
append_event-IsSequenced_example =
    append_event-IsSequenced home 100 70 (event 83 4) stored stored-IsSequenced
