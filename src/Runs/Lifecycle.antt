-- ===== src/Runs/Lifecycle.antt =====
-- The status of a run over its whole life: any sequence of the repository's operations, by any
-- tenants, each in its own transaction.
use universal_agent_studio.Prelude.{
  ℕ, ◌==◌, ◌≡◌, ◌⊎◌, refl, Bool, true, false, ◌&&◌, is_some, Option, none, some, List, [], ◌∷◌,
  arith, if◌then◌else◌, find, find_sound, find-update, not, update, Option-cases, inl, inr,
  transaction,
}
use universal_agent_studio.Catalog.{Tenant, in_tenant}
use universal_agent_studio.Runs.{
  Run, RunStatus, queued, running, completed, failed, cancelled, RunTables, CreateArguments,
  EventDocument, TraceDocument, TraceRecord, create_idempotent, append_event, finalize_trace,
  find_run, find_trace, run_of, trace_of, started, finished, parse_timestamp,
}

pub data Operation : Type 0 where
  creates : CreateArguments → Operation
  appends : (now run_id : ℕ) → EventDocument → Operation
  finalizes : (now fresh run_id : ℕ) → TraceDocument → Operation

unfoldable pub perform : Tenant → Operation → RunTables → RunTables
perform t (creates args) db = (transaction (create_idempotent t args) db).1
perform t (appends now run_id d) db = (transaction (append_event t now run_id d) db).1
perform t (finalizes now fresh run_id d) db =
    (transaction (finalize_trace t now fresh run_id d) db).1

abbrev pub empty : RunTables
empty = record { runs = []; requests = []; events = []; traces = [] }

abbrev pub status_of : Option Run → Option RunStatus
status_of none = none
status_of (some r) = some r.status

-- The status of a run, as its tenant sees it.
unfoldable pub status : Tenant → ℕ → RunTables → Option RunStatus
status t id db = status_of (find_run t id db)

abbrev pub final_of : Option TraceRecord → Option RunStatus
final_of none = none
final_of (some r) = some r.document.status

-- The status in the terminal trace of a run, if it has one.
unfoldable pub final_status : Tenant → ℕ → RunTables → Option RunStatus
final_status t id db = final_of (find_trace t id db)

abbrev pub is_terminal : RunStatus → Bool
is_terminal queued = false
is_terminal running = false
is_terminal _ = true

abbrev status_eq : RunStatus → RunStatus → Bool
status_eq queued queued = true
status_eq running running = true
status_eq completed completed = true
status_eq failed failed = true
status_eq cancelled cancelled = true
status_eq _ _ = false

-- A run with a trace has the terminal status of the trace; one without is queued or running.
abbrev pub coherent : Option RunStatus → Option RunStatus → Bool
coherent none none = true
coherent none (some s) = not (is_terminal s)
coherent (some f) none = false
coherent (some f) (some s) = is_terminal f && status_eq f s

abbrev pub IsCoherent : RunTables → Type 0
IsCoherent db = (t : Tenant) (id : ℕ) → coherent (final_status t id db) (status t id db) ≡ true

-- A fresh `uuid4()` names no run, and a trace carries a terminal status.
abbrev pub IsAllowed : RunTables → Operation → Type 0
IsAllowed db (creates args) = (u : Tenant) → find_run u args.fresh_run_id db ≡ none
IsAllowed db (appends now run_id d) = Unit
IsAllowed db (finalizes now fresh run_id d) = is_terminal d.status ≡ true

absent_run :
    (u : Tenant) (a b : ℕ) (db : RunTables)
    → b ≡ a
    → find_run u a db ≡ none
    → find_run u b db ≡ none
absent_run u a b db e h = rw e h

started-same : (u : Tenant) (jd at : ℕ) (r : Run) → run_of u jd (started at r) ≡ run_of u jd r
started-same u jd at r = ground arith

module _ (t u : Tenant) (jd : ℕ) (db : RunTables) where
  status-create :
      (args : CreateArguments)
      → (find_run u args.fresh_run_id db ≡ none)
      → (status u jd (create_idempotent t args db).1 ≡ status u jd db)
        ⊎ ((status u jd db ≡ none) × (status u jd (create_idempotent t args db).1 ≡ some queued))
  unfolding create_idempotent status find_run
  status-create args h = ground (arith, absent_run u args.fresh_run_id jd db)

  final-create :
      (args : CreateArguments)
      → final_status u jd (create_idempotent t args db).1 ≡ final_status u jd db
  unfolding create_idempotent final_status find_trace
  final-create args = ground arith

  started_status :
      (id at : ℕ)
      → (status_of (find (run_of u jd) (update (run_of t id) (started at) db.runs))
          ≡ status_of (find (run_of u jd) db.runs))
        ⊎ ((status_of (find (run_of u jd) db.runs) ≡ some queued)
            × (status_of (find (run_of u jd) (update (run_of t id) (started at) db.runs))
                ≡ some running))
  started_status id at =
      ground
        (arith, find-update (run_of u jd) (run_of t id) (started at) (started-same u jd at) db.runs)

  status-append :
      (now run_id : ℕ) (d : EventDocument)
      → (status u jd (append_event t now run_id d db).1 ≡ status u jd db)
        ⊎ ((status u jd db ≡ some queued)
            × (status u jd (append_event t now run_id d db).1 ≡ some running))
  unfolding append_event status find_run
  status-append now run_id d =
      ground (arith, started_status run_id (parse_timestamp now d.occurred_at))

  final-append :
      (now run_id : ℕ) (d : EventDocument)
      → final_status u jd (append_event t now run_id d db).1 ≡ final_status u jd db
  unfolding append_event final_status find_trace
  final-append now run_id d = ground arith

  find-same_run :
      (id : ℕ) (rows : List Run)
      → in_tenant t u.workspace_id u.project_id && id == jd ≡ true
      → find (run_of u jd) rows ≡ find (run_of t id) rows
  find-same_run id [] h = refl
  find-same_run id (r ∷ rows) h = ground (arith, find-same_run id rows)

  finalized_status :
      (now id : ℕ) (d : TraceDocument)
      → status_of (find (run_of u jd) (update (run_of t id) (finished now d) db.runs)) ≡ (
          if in_tenant t u.workspace_id u.project_id
            && id == jd
            && is_some (find (run_of u jd) db.runs)
          then some d.status
          else status_of (find (run_of u jd) db.runs))
  finalized_status now id d = elim (Option-cases (find (run_of u jd) db.runs)) [
    | inl missing ↦
        ground (arith, find-update (run_of u jd) (run_of t id) (finished now d) (λ r. refl) db.runs)
    | inr (r, known) ↦ ground (
      arith,
      find-update (run_of u jd) (run_of t id) (finished now d) (λ r. refl) db.runs,
      find_sound (run_of u jd) db.runs known,
    )
  ]

  -- Finalising a run touches the run and its trace alone, and only while it has no trace.
  finalize-coherent :
      (now fresh run_id : ℕ) (d : TraceDocument)
      → is_terminal d.status ≡ true
      → coherent (final_status u jd db) (status u jd db) ≡ true
      → coherent
          (final_status u jd (finalize_trace t now fresh run_id d db).1)
          (status u jd (finalize_trace t now fresh run_id d db).1)
        ≡ true
  unfolding finalize_trace final_status status find_run find_trace
  finalize-coherent now fresh run_id d terminal h =
      elim (Option-cases (find (run_of t run_id) db.runs)) [
        | inl missing ↦ ground arith
        | inr (r, known) ↦ ground (
          arith,
          find_sound (run_of t run_id) db.runs known,
          finalized_status now run_id d,
          find-same_run run_id db.runs,
        )
      ]

perform-IsCoherent :
    (t : Tenant) (op : Operation) (db : RunTables)
    → IsAllowed db op
    → IsCoherent db
    → IsCoherent (perform t op db)
unfolding perform
perform-IsCoherent t (creates args) db allowed valid u jd =
    ground
      (arith, status-create t u jd db args (allowed u), final-create t u jd db args, valid u jd)
perform-IsCoherent t (appends now run_id d) db allowed valid u jd =
    ground
      (arith, status-append t u jd db now run_id d, final-append t u jd db now run_id d, valid u jd)
perform-IsCoherent t (finalizes now fresh run_id d) db allowed valid u jd =
    ground (arith, finalize-coherent t u jd db now fresh run_id d allowed, valid u jd)

-- The tables that the operations can reach.
pub data Reaches : RunTables → Type 0 where
  start : Reaches empty
  step :
      {db : RunTables} (t : Tenant) (op : Operation)
      → Reaches db
      → IsAllowed db op
      → Reaches (perform t op db)

-- In every reachable state of the tables, a run that has a trace has the terminal status of its
-- trace, and a run that has none is queued or running. The operations are any, by any tenants and
-- in any order, with fresh identifiers of runs and terminal statuses in traces.
pub Reaches-IsCoherent : {db : RunTables} → Reaches db → IsCoherent db
unfolding status final_status find_run find_trace
Reaches-IsCoherent start = λ t id. refl
Reaches-IsCoherent (step {db = db} t op r allowed) =
    perform-IsCoherent t op db allowed (Reaches-IsCoherent r)

coherent-eq : (s : RunStatus) (o : Option RunStatus) → coherent (some s) o ≡ true → o ≡ some s
coherent-eq s o h = ground arith

module _ (t u : Tenant) (jd : ℕ) where
  find-same_trace :
      (id : ℕ) (rows : List TraceRecord)
      → in_tenant t u.workspace_id u.project_id && id == jd ≡ true
      → find (trace_of u jd) rows ≡ find (trace_of t id) rows
  find-same_trace id [] h = refl
  find-same_trace id (r ∷ rows) h = ground (arith, find-same_trace id rows)

  final-finalize :
      (db : RunTables) (now fresh run_id : ℕ) (d : TraceDocument) (s : RunStatus)
      → final_status u jd db ≡ some s
      → final_status u jd (finalize_trace t now fresh run_id d db).1 ≡ some s
  unfolding finalize_trace final_status find_run find_trace
  final-finalize db now fresh run_id d s h = elim (Option-cases (find (run_of t run_id) db.runs)) [
    | inl missing ↦ ground arith
    | inr (r, known) ↦
        ground (arith, find_sound (run_of t run_id) db.runs known, find-same_trace run_id db.traces)
  ]

perform-final_status :
    (t u : Tenant) (id : ℕ) (op : Operation) (db : RunTables) (s : RunStatus)
    → final_status u id db ≡ some s
    → final_status u id (perform t op db) ≡ some s
unfolding perform
perform-final_status t u id (creates args) db s h = ground (arith, final-create t u id db args)
perform-final_status t u id (appends now run_id d) db s h =
    ground (arith, final-append t u id db now run_id d)
perform-final_status t u id (finalizes now fresh run_id d) db s h =
    ground (arith, final-finalize t u id db now fresh run_id d s h)

-- Once a run has a trace, no operation of any tenant changes its status or the status in its trace.
pub perform-final :
    (t u : Tenant) (id : ℕ) (op : Operation) (db : RunTables) {s : RunStatus}
    → IsCoherent db
    → IsAllowed db op
    → final_status u id db ≡ some s
    → (final_status u id (perform t op db) ≡ some s) × (status u id (perform t op db) ≡ some s)
perform-final t u id op db {s} valid allowed h =
    let kept = perform-final_status t u id op db s h in
    (kept, coherent-eq s _ (rw kept at (perform-IsCoherent t op db allowed valid u id)))
