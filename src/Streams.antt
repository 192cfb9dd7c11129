-- ===== src/Streams.antt =====
-- apps/control-api/src/universal_agent_studio_api/runs/sse.py: the stream of the events of a run. Each
-- poll of the loop sees the tables as they are then, twice: when it lists the events, and when it
-- reads the run. Whether the client is gone and whether a heartbeat is due is seen by the poll too.
pub mod Ascending
pub mod Ending
use universal_agent_studio.Prelude.{
  ℕ, Bool, true, false, if◌then◌else◌, Option, none, some, List, [], ◌∷◌, ◌++◌, Result, ok, err,
}
use universal_agent_studio.Catalog.{Tenant}
use universal_agent_studio.Runs.{EventDocument, EventRecord}
use universal_agent_studio.Webhooks.{is_terminal_type}
use universal_agent_studio.RunService.{Platform, ServiceError, StoredRun, is_terminal}
use universal_agent_studio.RunService.Requests.{Outside, get_run, list_run_events}

-- `encode_sse_event` of a document, or the comment that keeps the connection.
pub data Frame : Type 0 where
  event : EventDocument → Frame
  heartbeat : Frame

pub record Poll : Type 0 where
  pub disconnected : Bool
  pub listed : Platform
  pub checked : Platform
  pub idle : Bool

-- The loop over the events of one poll.
pub record Sent : Type 0 where
  pub frames : List Frame
  pub cursor : ℕ
  pub ended : Bool

unfoldable pub send : ℕ → List EventRecord → Sent
send cursor [] = record { frames = []; cursor = cursor; ended = false }
send cursor (e ∷ es) =
    let rest = send e.document.sequence es in
    if is_terminal_type e.document.type
    then record { frames = event e.document ∷ []; cursor = e.document.sequence; ended = true }
    else record rest { frames = event e.document ∷ rest.frames }

-- The frames of a stream, and the exception that ends it, if one does.
abbrev pub Stream : Type 0
Stream = List Frame × Option ServiceError

abbrev pub beat : Bool → List Frame
beat true = heartbeat ∷ []
beat false = []

unfoldable pub go_on : Sent → Bool → Result ServiceError StoredRun → Stream → Stream
go_on sent idle (err e) rest = (sent.frames, some e)
go_on sent idle (ok run) rest =
    if is_terminal run.status
    then (sent.frames, none)
    else (sent.frames ++ (beat idle ++ rest.0), rest.1)

listed_events :
    Outside → Tenant → ℕ → ℕ → Poll → (ℕ → Stream) → Result ServiceError (List EventRecord) → Stream
listed_events o t run_id cursor q rest (err e) = ([], some e)
listed_events o t run_id cursor q rest (ok rows) =
    let sent = send cursor rows in
    if sent.ended
    then (sent.frames, none)
    else go_on sent q.idle (get_run o t run_id q.checked).0 (rest sent.cursor)

-- One turn of the loop; `rest` is the loop from a cursor on.
unfoldable pub turn : Outside → Tenant → ℕ → ℕ → Poll → (ℕ → Stream) → Stream
unfolding listed_events
turn o t run_id cursor q rest =
    if q.disconnected
    then ([], none)
    else listed_events o t run_id cursor q rest (list_run_events o t run_id cursor q.listed).0

-- `stream_run_events`
unfoldable pub stream_run_events : Outside → Tenant → ℕ → List Poll → ℕ → Stream
stream_run_events o t run_id [] cursor = ([], none)
stream_run_events o t run_id (q ∷ qs) cursor =
    turn o t run_id cursor q (stream_run_events o t run_id qs)
