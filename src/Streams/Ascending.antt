-- ===== src/Streams/Ascending.antt =====
-- The numbers of the events that a stream sends.
use universal_agent_studio.Prelude.{
  ℕ, ◌<◌, ◌≡◌, Bool, true, false, Bool-cases, Result-cases, List, [], ◌∷◌, ◌++◌, ok, inl, inr, All,
  All-map, arith, subst,
}
use universal_agent_studio.Catalog.{Tenant}
use universal_agent_studio.Runs.{EventRecord, RunTables, list_events}
use universal_agent_studio.Runs.Order.{
  IsAscending, IsSequenced, list_events-IsAscending, list_events_above, list_events-All,
}
use universal_agent_studio.Webhooks.{is_terminal_type}
use universal_agent_studio.RunService.{Platform, get_stored, stored, is_terminal}
use universal_agent_studio.RunService.Requests.{Outside, get_run, list_run_events}
use universal_agent_studio.Streams.{
  Frame, event, heartbeat, Poll, Stream, send, beat, go_on, turn, stream_run_events,
}

-- The events among the frames have strictly ascending numbers above `c`.
abbrev pub AscendsAbove : ℕ → List Frame → Type 0
AscendsAbove c [] = Unit
AscendsAbove c (event d ∷ fs) = (c < d.sequence) × AscendsAbove d.sequence fs
AscendsAbove c (heartbeat ∷ fs) = AscendsAbove c fs

-- Rows of one run have distinct numbers, and bear those of their documents.
abbrev pub HasItsNumber : EventRecord → Type 0
HasItsNumber e = e.document.sequence ≡ e.sequence

pub record IsNumbered (db : RunTables) : Type 0 where
  pub sequenced : IsSequenced db.events
  pub numbered : All HasItsNumber db.events

abbrev pub RowsAscend : ℕ → List EventRecord → Type 0
RowsAscend c [] = Unit
RowsAscend c (e ∷ es) = (c < e.document.sequence) × RowsAscend e.document.sequence es

rows_ascend :
    (c : ℕ) (es : List EventRecord)
    → All (λ e. c < e.sequence) es
    → IsAscending es
    → All HasItsNumber es
    → RowsAscend c es
rows_ascend c [] above h n = tt
rows_ascend c (e ∷ es) above h n = (
  omega (arith, n.0, above.0),
  rows_ascend e.document.sequence es (All-map _ _ (λ f k. omega (arith, n.0, k)) es h.0) h.1 n.1,
)

list_events-RowsAscend :
    (t : Tenant) (run_id c : ℕ) (db : RunTables)
    → IsNumbered db
    → RowsAscend c (list_events t run_id c db)
list_events-RowsAscend t run_id c db h =
    rows_ascend c (list_events t run_id c db) (list_events_above t run_id c db)
      (list_events-IsAscending t run_id c db h.sequenced)
      (list_events-All HasItsNumber t run_id c db h.numbered)

-- What one poll sends, with what follows it above its last number.
send-AscendsAbove :
    (c : ℕ) (es : List EventRecord) (more : List Frame)
    → RowsAscend c es
    → AscendsAbove (send c es).cursor more
    → AscendsAbove c ((send c es).frames ++ more)
unfolding send
send-AscendsAbove c [] more h k = k
send-AscendsAbove c (e ∷ es) more h k = elim (Bool-cases (is_terminal_type e.document.type)) [
  | inl last ↦ rw (last) (h.0, rw last at k)
  | inr other ↦ rw (other) (h.0, send-AscendsAbove e.document.sequence es more h.1 (rw other at k))
]

stops-AscendsAbove :
    (c : ℕ) (es : List EventRecord) → RowsAscend c es → AscendsAbove c (send c es).frames
unfolding send
stops-AscendsAbove c [] h = tt
stops-AscendsAbove c (e ∷ es) h = elim (Bool-cases (is_terminal_type e.document.type)) [
  | inl last ↦ rw (last) (h.0, tt)
  | inr other ↦ rw (other) (h.0, stops-AscendsAbove e.document.sequence es h.1)
]

beat-AscendsAbove :
    (c : ℕ) (idle : Bool) (more : List Frame)
    → AscendsAbove c more
    → AscendsAbove c (beat idle ++ more)
beat-AscendsAbove c true more h = h
beat-AscendsAbove c false more h = h

get_run_reads :
    (o : Outside) (t : Tenant) (run_id : ℕ) (p : Platform) → (get_run o t run_id p).1 ≡ p
unfolding get_run get_stored stored
get_run_reads o t run_id p = ground arith

listed_rows :
    (o : Outside) (t : Tenant) (run_id c : ℕ) (p : Platform) {rows : List EventRecord}
    → (list_run_events o t run_id c p).0 ≡ ok rows
    → list_events t run_id c p.runs ≡ rows
unfolding list_run_events
listed_rows o t run_id c p {rows} e = elim (Result-cases (get_run o t run_id p).0) [
  | inl (run, known) ↦ ground (arith, known, e, get_run_reads o t run_id p)
  | inr (x, missing) ↦ ground (arith, missing, e)
]

-- A poll sees numbered tables when it lists the events.
abbrev pub Sees : Poll → Type 0
Sees q = IsNumbered q.listed.runs

poll-AscendsAbove :
    (o : Outside) (t : Tenant) (run_id c : ℕ) (q : Poll) (rows : List EventRecord) (rest : Stream)
    → RowsAscend c rows
    → AscendsAbove (send c rows).cursor rest.0
    → AscendsAbove c (go_on (send c rows) q.idle (get_run o t run_id q.checked).0 rest).0
unfolding go_on
poll-AscendsAbove o t run_id c q rows rest h k =
    elim (Result-cases (get_run o t run_id q.checked).0) [
      | inl (run, known) ↦ elim (Bool-cases (is_terminal run.status)) [
        | inl over ↦ rw (known, over) (stops-AscendsAbove c rows h)
        | inr goes ↦
            rw (known, goes)
              (send-AscendsAbove c rows (beat q.idle ++ rest.0) h
                (beat-AscendsAbove (send c rows).cursor q.idle rest.0 k))
      ]
      | inr (x, missing) ↦ rw (missing) (stops-AscendsAbove c rows h)
    ]

turn-AscendsAbove :
    (o : Outside) (t : Tenant) (run_id c : ℕ) (q : Poll) (rest : ℕ → Stream)
    → Sees q
    → ((cursor : ℕ) → AscendsAbove cursor (rest cursor).0)
    → AscendsAbove c (turn o t run_id c q rest).0
unfolding turn
turn-AscendsAbove o t run_id c q rest h k = elim (Bool-cases q.disconnected) [
  | inl gone ↦ simp (gone) tt
  | inr here ↦ elim (Result-cases (list_run_events o t run_id c q.listed).0) [
    | inl (rows, e) ↦
        let ascend : RowsAscend c rows =
          subst (RowsAscend c) (listed_rows o t run_id c q.listed e)
            (list_events-RowsAscend t run_id c q.listed.runs h) in
        elim (Bool-cases (send c rows).ended) [
          | inl ended ↦ simp (here, e, ended) (stops-AscendsAbove c rows ascend)
          | inr goes ↦
              simp (here, e, goes)
                (poll-AscendsAbove o t run_id c q rows (rest (send c rows).cursor) ascend
                  (k (send c rows).cursor))
        ]
    | inr (x, e) ↦ simp (here, e) tt
  ]
]

-- The events that a stream sends are numbered strictly upwards from above the cursor of the client,
-- so that none is sent twice, however the tables change between the polls, whenever the client
-- leaves, and whether or not an exception ends the stream. In the tables that the polls list, the
-- rows of one run have distinct numbers, and bear those of their documents.
pub stream_run_events-AscendsAbove :
    (o : Outside) (t : Tenant) (run_id : ℕ) (polls : List Poll)
    → All Sees polls
    → (c : ℕ) → AscendsAbove c (stream_run_events o t run_id polls c).0
unfolding stream_run_events
stream_run_events-AscendsAbove o t run_id [] h c = tt
stream_run_events-AscendsAbove o t run_id (q ∷ qs) h c =
    turn-AscendsAbove o t run_id c q (stream_run_events o t run_id qs) h.0
      (stream_run_events-AscendsAbove o t run_id qs h.1)
