-- ===== src/Tests/Streaming.antt =====
-- Two runs that the public cannot tell apart: one calls a tool, the other a model, on other inputs.

use universal_agent_studio.Prelude.{
  ℕ, ◌≡◌, refl, false, Bool-cases, ltb, inl, inr, some, none, [], ◌∷◌, String, map,
}
use universal_agent_studio.Json.{null}
use universal_agent_studio.Runs.{EventRecord, running, event_record, list_events, find_run}
use universal_agent_studio.RunService.{Platform, stored, get_stored}
use universal_agent_studio.RunService.Requests.{get_run, list_run_events}
use universal_agent_studio.Streams.{Poll}
use universal_agent_studio.Public.Streaming.{
  stream_events, public_turn, public_listed, public_go_on, public_send, sanitize_event, shown,
}
use universal_agent_studio.Public.Streaming.Hidden.{
  LookAlike, stream_events-LookAlike, outline, each,
}
use universal_agent_studio.Tests.Samples.{home}
use universal_agent_studio.Tests.RunService.{platform, outside}
use universal_agent_studio.Tests.Streams.{tables, stored_run}

abbrev row : String → EventRecord
row type = event_record home 100 70 record {
  event_id = 81;
  sequence = 1;
  type = type;
  node_id = some type;
  occurred_at = some 100;
  content = null;
}

abbrev sees : String → Platform
sees type = record platform { runs = tables running (row type ∷ []) }

abbrev poll : String → Poll
poll type = record { disconnected = false; listed = sees type; checked = sees type; idle = false }

same_lists :
    (c : ℕ)
    → each (map outline) (list_run_events outside home 70 c (sees "tool.started")).0
      ≡ each (map outline) (list_run_events outside home 70 c (sees "model.started")).0
unfolding list_run_events get_run get_stored stored find_run list_events
same_lists c = elim (Bool-cases (ltb c 1)) [ inl new ↦ rw new refl | inr old ↦ rw old refl ]

alike : LookAlike outside home 70 (poll "tool.started") (poll "model.started")
unfolding get_run get_stored stored find_run
alike = record { gone = refl; beats = refl; lists = same_lists; reads = refl }

stream_events-LookAlike_example :
    stream_events outside home 70 (poll "tool.started" ∷ []) stored_run 0
    ≡ stream_events outside home 70 (poll "model.started" ∷ []) stored_run 0
stream_events-LookAlike_example =
    stream_events-LookAlike outside home 70 (poll "tool.started" ∷ []) (poll "model.started" ∷ [])
      (alike, tt) stored_run stored_run 0 refl

progress : stream_events outside home 70 (poll "tool.started" ∷ []) stored_run 0 ≡ (
  shown record {
    sequence = 1;
    type = "run.progress";
    status = "running";
    output = none;
    error_code = none;
    occurred_at = some 100;
  }
      ∷ [],
  none,
)
unfolding stream_events public_turn public_listed public_go_on public_send sanitize_event
    list_run_events get_run get_stored stored find_run list_events
progress = refl
