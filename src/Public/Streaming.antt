-- ===== src/Public/Streaming.antt =====
-- publishing/public_service.py: the stream of the events of a run to the public, `stream_events` behind its
-- authorization, which is that of `authorize_events`. The polls are those of the stream of the
-- owner, but the run is read again only when there are events. Documents come with a time.
pub mod Hidden
use universal_agent_studio.Prelude.{
  ℕ, String, str_eq, str_mem, if◌then◌else◌, Bool, true, false, Option, none, some, List, [], ◌∷◌,
  ◌++◌, Result, ok, err,
}
use universal_agent_studio.Json.{Json}
use universal_agent_studio.Catalog.{Tenant}
use universal_agent_studio.Runs.{EventDocument, EventRecord}
use universal_agent_studio.Webhooks.{is_terminal_type}
use universal_agent_studio.RunService.{ServiceError, StoredRun, is_terminal}
use universal_agent_studio.RunService.Requests.{Outside, get_run, list_run_events}
use universal_agent_studio.Streams.{Poll}

pub record PublicRunEvent : Type 0 where
  pub sequence : ℕ
  pub type : String
  pub status : String
  pub output : Option Json
  pub error_code : Option String
  pub occurred_at : Option ℕ

-- The type, the status, the output and the error code that the branches of `_sanitize_event` set.
abbrev pub public_type : String → String
public_type type =
    if str_mem type ("run.completed" ∷ "run.failed" ∷ "run.cancelled" ∷ "run.started" ∷ [])
    then type
    else "run.progress"

abbrev pub public_status : String → String
public_status type =
    if str_eq type "run.completed"
    then "completed"
    else if str_eq type "run.failed"
    then "failed"
    else if str_eq type "run.cancelled"
    then "cancelled"
    else "running"

abbrev pub public_error : String → Option String
public_error type =
    if str_eq type "run.failed"
    then some "invocation_unavailable"
    else if str_eq type "run.cancelled"
    then some "run_cancelled"
    else none

-- `_sanitize_event`
unfoldable pub sanitize_event : EventDocument → StoredRun → PublicRunEvent
sanitize_event d run =
    let type = public_type d.type in
    record {
      sequence = d.sequence;
      type = type;
      status = public_status type;
      output = if str_eq type "run.completed" then run.output else none;
      error_code = public_error type;
      occurred_at = d.occurred_at;
    }

-- The bytes of an event, or of a heartbeat.
pub data PublicFrame : Type 0 where
  shown : PublicRunEvent → PublicFrame
  heartbeat : PublicFrame

abbrev pub PublicStream : Type 0
PublicStream = List PublicFrame × Option ServiceError

-- The loop over the events of one poll.
pub record PublicSent : Type 0 where
  pub frames : List PublicFrame
  pub cursor : ℕ
  pub ended : Bool

unfoldable pub public_send : StoredRun → ℕ → List EventRecord → PublicSent
public_send run cursor [] = record { frames = []; cursor = cursor; ended = false }
public_send run cursor (e ∷ es) =
    let rest = public_send run e.document.sequence es in
    let frame = shown (sanitize_event e.document run) in
    if is_terminal_type e.document.type
    then record { frames = frame ∷ []; cursor = e.document.sequence; ended = true }
    else record rest { frames = frame ∷ rest.frames }

abbrev pub public_beat : Bool → List PublicFrame
public_beat true = heartbeat ∷ []
public_beat false = []

-- The run of a poll: it is read again only when there are events.
abbrev pub current_run :
    List EventRecord → StoredRun → Result ServiceError StoredRun → Result ServiceError StoredRun
current_run [] run read = ok run
current_run (e ∷ es) run read = read

-- The rest of a turn, for its rows; `rest` is the loop for a run and a cursor on.
unfoldable pub public_go_on :
    ℕ
    → Bool
    → (StoredRun → ℕ → PublicStream)
    → List EventRecord
    → Result ServiceError StoredRun
    → PublicStream
public_go_on cursor idle rest rows (err e) = ([], some e)
public_go_on cursor idle rest rows (ok run) =
    let sent = public_send run cursor rows in
    let more = rest run sent.cursor in
    if sent.ended
    then (sent.frames, none)
    else if is_terminal run.status
    then (sent.frames, none)
    else (sent.frames ++ (public_beat idle ++ more.0), more.1)

unfoldable pub public_listed :
    StoredRun
    → ℕ
    → Bool
    → (StoredRun → ℕ → PublicStream)
    → Result ServiceError StoredRun
    → Result ServiceError (List EventRecord)
    → PublicStream
public_listed run cursor idle rest read (err e) = ([], some e)
public_listed run cursor idle rest read (ok rows) =
    public_go_on cursor idle rest rows (current_run rows run read)

unfoldable pub public_turn :
    Outside → Tenant → ℕ → Poll → (StoredRun → ℕ → PublicStream) → StoredRun → ℕ → PublicStream
public_turn o t run_id q rest run cursor =
    if q.disconnected
    then ([], none)
    else public_listed run cursor q.idle rest (get_run o t run_id q.checked).0
        (list_run_events o t run_id cursor q.listed).0

-- `stream_events` from the run that the authorization read.
unfoldable pub stream_events : Outside → Tenant → ℕ → List Poll → StoredRun → ℕ → PublicStream
stream_events o t run_id [] run cursor = ([], none)
stream_events o t run_id (q ∷ qs) run cursor =
    public_turn o t run_id q (stream_events o t run_id qs) run cursor
