-- ===== src/Public/Streaming/Hidden.antt =====
-- What the public stream does not tell.
use universal_agent_studio.Prelude.{
  ℕ, ◌≡◌, refl, sym, ◌||◌, ap, String, str_eq, str_mem, Bool, false, Bool-cases, Option, List, [],
  ◌∷◌, map, Result, ok, err, arith, inl, inr,
}
use universal_agent_studio.Json.{Json}
use universal_agent_studio.Catalog.{Tenant}
use universal_agent_studio.Runs.{EventRecord}
use universal_agent_studio.Webhooks.{is_terminal_type}
use universal_agent_studio.RunService.{ServiceError, StoredRun, is_terminal}
use universal_agent_studio.RunService.Requests.{Outside, get_run, list_run_events}
use universal_agent_studio.Streams.{Poll}
use universal_agent_studio.Public.Streaming.{
  PublicStream, public_type, sanitize_event, public_send, current_run, public_go_on, public_listed,
  public_turn, stream_events,
}

-- The number, the time and the public type of an event.
abbrev pub Outline : Type 0
Outline = ℕ × Option ℕ × String

abbrev pub outline : EventRecord → Outline
outline e = (e.document.sequence, e.document.occurred_at, public_type e.document.type)

-- The output of a run, and whether it is over.
abbrev pub RunOutline : Type 0
RunOutline = Option Json × Bool

abbrev pub run_outline : StoredRun → RunOutline
run_outline run = (run.output, is_terminal run.status)

abbrev pub each : {A B : Type 0} → (A → B) → Result ServiceError A → Result ServiceError B
each f (ok a) = ok (f a)
each f (err e) = err e

-- Two polls that show the client the same outlines, or raise the same.
pub record LookAlike (o : Outside) (t : Tenant) (run_id : ℕ) (q q' : Poll) : Type 0 where
  pub gone : q.disconnected ≡ q'.disconnected
  pub beats : q.idle ≡ q'.idle
  pub lists :
      (c : ℕ)
      → each (map outline) (list_run_events o t run_id c q.listed).0
        ≡ each (map outline) (list_run_events o t run_id c q'.listed).0
  pub reads :
      each run_outline (get_run o t run_id q.checked).0
      ≡ each run_outline (get_run o t run_id q'.checked).0

three_of_four :
    (a b c d : Bool)
    → (a || (b || (c || (d || false)))) ≡ false
    → (a || (b || (c || false))) ≡ false
three_of_four a b c d h = ground (arith, h)

terminal_public : (type : String) → is_terminal_type (public_type type) ≡ is_terminal_type type
terminal_public type =
    elim (Bool-cases
      (str_mem type ("run.completed" ∷ "run.failed" ∷ "run.cancelled" ∷ "run.started" ∷ []))) [
        | inl known ↦ rw known refl
        | inr other ↦ rw (other) (
            sym (
              three_of_four (str_eq type "run.completed") (str_eq type "run.failed")
                (str_eq type "run.cancelled") (str_eq type "run.started") other))
      ]

terminal_alike :
    (a b : String) → public_type a ≡ public_type b → is_terminal_type a ≡ is_terminal_type b
terminal_alike a b h = cc (terminal_public a, terminal_public b, h)

module _ (run run' : StoredRun) (alike : run_outline run ≡ run_outline run') where
  sanitize_alike :
      (e e' : EventRecord)
      → outline e ≡ outline e'
      → sanitize_event e.document run ≡ sanitize_event e'.document run'
  unfolding sanitize_event
  sanitize_alike e e' h = ground (arith, h, alike)

  send_alike :
      (c : ℕ) (rows rows' : List EventRecord)
      → map outline rows ≡ map outline rows'
      → public_send run c rows ≡ public_send run' c rows'
  unfolding public_send
  send_alike c [] [] h = refl
  send_alike c [] (e ∷ es) h = cc
  send_alike c (e ∷ es) [] h = cc
  send_alike c (e ∷ es) (e' ∷ es') h =
      let same : outline e ≡ outline e' = cc in
      let type : public_type e.document.type ≡ public_type e'.document.type = ap (λ r. r.2) same in
      let ends = terminal_alike e.document.type e'.document.type type in
      let number : e.document.sequence ≡ e'.document.sequence = ap (λ r. r.0) same in
      let frame = sanitize_alike e e' same in
      let rest = send_alike e.document.sequence es es' (cc) in rw (frame, ends, rest, number) refl

-- The loop goes on alike for runs that look alike.
abbrev GoesOnAlike : (rest rest' : StoredRun → ℕ → PublicStream) → Type 0
GoesOnAlike rest rest' =
    (run run' : StoredRun) (c : ℕ) → run_outline run ≡ run_outline run' → rest run c ≡ rest' run' c

go_on_alike :
    (c : ℕ) (idle : Bool) (rest rest' : StoredRun → ℕ → PublicStream)
    → GoesOnAlike rest rest'
    → (rows rows' : List EventRecord) → map outline rows ≡ map outline rows'
    → (read read' : Result ServiceError StoredRun) → each run_outline read ≡ each run_outline read'
    → public_go_on c idle rest rows read ≡ public_go_on c idle rest' rows' read'
unfolding public_go_on
go_on_alike c idle rest rest' k rows rows' h (err e) (err e') r = cc
go_on_alike c idle rest rest' k rows rows' h (err e) (ok run) r = cc
go_on_alike c idle rest rest' k rows rows' h (ok run) (err e) r = cc
go_on_alike c idle rest rest' k rows rows' h (ok run) (ok run') r =
    let alike : run_outline run ≡ run_outline run' = cc in
    let over : is_terminal run.status ≡ is_terminal run'.status = ap (λ x. x.1) alike in
    let sent = send_alike run run' alike c rows rows' h in
    let more = k run run' (public_send run' c rows').cursor alike in rw (sent, over, more) refl

current_alike :
    (rows rows' : List EventRecord)
    → map outline rows ≡ map outline rows'
    → (run run' : StoredRun) → run_outline run ≡ run_outline run'
    → (read read' : Result ServiceError StoredRun) → each run_outline read ≡ each run_outline read'
    → each run_outline (current_run rows run read) ≡ each run_outline (current_run rows' run' read')
current_alike [] [] h run run' r read read' i = ap ok r
current_alike [] (e ∷ es) h run run' r read read' i = cc
current_alike (e ∷ es) [] h run run' r read read' i = cc
current_alike (e ∷ es) (e' ∷ es') h run run' r read read' i = i

listed_alike :
    (run run' : StoredRun)
    → run_outline run ≡ run_outline run'
    → (c : ℕ) (idle : Bool) (rest rest' : StoredRun → ℕ → PublicStream) → GoesOnAlike rest rest'
    → (read read' : Result ServiceError StoredRun) → each run_outline read ≡ each run_outline read'
    → (found found' : Result ServiceError (List EventRecord))
    → each (map outline) found ≡ each (map outline) found'
    → public_listed run c idle rest read found ≡ public_listed run' c idle rest' read' found'
unfolding public_listed
listed_alike run run' r c idle rest rest' k read read' i (err e) (err e') h = cc
listed_alike run run' r c idle rest rest' k read read' i (err e) (ok rows) h = cc
listed_alike run run' r c idle rest rest' k read read' i (ok rows) (err e) h = cc
listed_alike run run' r c idle rest rest' k read read' i (ok rows) (ok rows') h =
    let same : map outline rows ≡ map outline rows' = cc in
    go_on_alike c idle rest rest' k rows rows' same (current_run rows run read)
      (current_run rows' run' read') (current_alike rows rows' same run run' r read read' i)

-- The polls of two streams, one by one.
abbrev pub PollsLookAlike : Outside → Tenant → ℕ → List Poll → List Poll → Type 0
PollsLookAlike o t run_id [] [] = Unit
PollsLookAlike o t run_id [] (q ∷ qs) = ⊥
PollsLookAlike o t run_id (q ∷ qs) [] = ⊥
PollsLookAlike o t run_id (q ∷ qs) (q' ∷ qs') =
    LookAlike o t run_id q q' × PollsLookAlike o t run_id qs qs'

-- The public stream is the same for runs and events that look alike: it tells of an event only its
-- number, its time and whether it starts, completes, fails or cancels the run, and of a run only its
-- output and whether it is over. Payloads, node identifiers and the other types of events stay
-- hidden, in the exceptions that end a stream as well.
pub stream_events-LookAlike :
    (o : Outside) (t : Tenant) (run_id : ℕ) (qs qs' : List Poll)
    → PollsLookAlike o t run_id qs qs'
    → (run run' : StoredRun) (c : ℕ) → run_outline run ≡ run_outline run'
    → stream_events o t run_id qs run c ≡ stream_events o t run_id qs' run' c
unfolding stream_events public_turn
stream_events-LookAlike o t run_id [] [] h run run' c r = refl
stream_events-LookAlike o t run_id [] (q' ∷ qs') h run run' c r = elim h [ ]
stream_events-LookAlike o t run_id (q ∷ qs) [] h run run' c r = elim h [ ]
stream_events-LookAlike o t run_id (q ∷ qs) (q' ∷ qs') h run run' c r =
    let rest = stream_events-LookAlike o t run_id qs qs' h.1 in
    let listed =
      listed_alike run run' r c q.idle (stream_events o t run_id qs) (stream_events o t run_id qs')
        rest (get_run o t run_id q.checked).0 (get_run o t run_id q'.checked).0 h.0.reads
        (list_run_events o t run_id c q.listed).0 (list_run_events o t run_id c q'.listed).0
        (h.0.lists c) in
    rw (listed, h.0.gone, h.0.beats) refl
