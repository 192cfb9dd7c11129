-- ===== src/Runs/Order.antt =====
-- The order in which the events of a run are listed, and resumption from a cursor.
use universal_agent_studio.Prelude.{
  ℕ, ◌==◌, ltb, leb, ◌<◌, ◌≤◌, ◌≡◌, ◌≢◌, refl, ◌∙◌, sym, ap, Bool, true, false, ◌&&◌, none, some,
  Bool-cases, Option-cases, List, [], ◌∷◌, ◌++◌, arith, if◌then◌else◌, find, find-none, keep, All,
  All-map, inl, inr,
}
use universal_agent_studio.Catalog.{Tenant, in_tenant}
use universal_agent_studio.Runs.{
  EventDocument, EventRecord, RunTables, append_event, collides, event_of_run, event_record,
  find_event, insert_ordered, list_events, order_events,
}

abbrev pub after : ℕ → EventRecord → Bool
after cursor e = ltb cursor e.sequence

-- Strictly ascending sequence numbers.
abbrev pub IsAscending : List EventRecord → Type 0
IsAscending [] = Unit
IsAscending (e ∷ es) = All (λ f. e.sequence < f.sequence) es × IsAscending es

-- No two events of one run of one tenant have the same sequence number.
abbrev same_place : EventRecord → EventRecord → Bool
same_place e f =
    in_tenant (record { workspace_id = e.workspace_id; project_id = e.project_id }) f.workspace_id
      f.project_id
    && (e.run_id == f.run_id && e.sequence == f.sequence)

abbrev pub IsSequenced : List EventRecord → Type 0
IsSequenced [] = Unit
IsSequenced (e ∷ es) = All (λ f. same_place e f ≡ false) es × IsSequenced es

-- Sorting commutes with the selection of what lies behind a cursor.
keep-insert_ordered :
    (c : ℕ) (e : EventRecord) (es : List EventRecord)
    → keep (after c) (insert_ordered e es)
      ≡ (if after c e then insert_ordered e (keep (after c) es) else keep (after c) es)
unfolding insert_ordered
keep-insert_ordered c e [] = refl
keep-insert_ordered c e (f ∷ fs) = ground (arith, keep-insert_ordered c e fs)

keep-order_events :
    (c : ℕ) (es : List EventRecord)
    → keep (after c) (order_events es) ≡ order_events (keep (after c) es)
unfolding order_events
keep-order_events c [] = refl
keep-order_events c (e ∷ es) =
    ground (arith, keep-insert_ordered c e (order_events es), keep-order_events c es)

keep-keep :
    (t : Tenant) (run_id a c : ℕ) (es : List EventRecord)
    → a ≤ c
    → keep (after c) (keep (λ e. event_of_run t run_id e && after a e) es)
      ≡ keep (λ e. event_of_run t run_id e && after c e) es
keep-keep t run_id a c [] h = refl
keep-keep t run_id a c (e ∷ es) h = ground (arith, keep-keep t run_id a c es)

-- Listing from a later cursor gives exactly what lies behind it in an earlier listing.
pub list_events_later :
    (t : Tenant) (run_id a c : ℕ) (db : RunTables)
    → a ≤ c
    → list_events t run_id c db ≡ keep (after c) (list_events t run_id a db)
unfolding list_events
list_events_later t run_id a c db h =
    ap order_events (sym (keep-keep t run_id a c db.events h)) ∙ sym (keep-order_events c _)

insert_ordered-All :
    (P : EventRecord → Type 0) (e : EventRecord) (es : List EventRecord)
    → P e
    → All P es
    → All P (insert_ordered e es)
unfolding insert_ordered
insert_ordered-All P e [] p h = (p, tt)
insert_ordered-All P e (f ∷ fs) p h = elim (Bool-cases (leb e.sequence f.sequence)) [
  | inl first ↦ rw first (p, h)
  | inr later ↦ rw later (h.0, insert_ordered-All P e fs p h.1)
]

insert_ordered-IsAscending :
    (e : EventRecord) (es : List EventRecord)
    → All (λ f. e.sequence ≢ f.sequence) es
    → IsAscending es
    → IsAscending (insert_ordered e es)
unfolding insert_ordered
insert_ordered-IsAscending e [] n h = (tt, tt)
insert_ordered-IsAscending e (f ∷ fs) n h = elim (Bool-cases (leb e.sequence f.sequence)) [
  | inl first ↦
      let below : e.sequence < f.sequence = ground (arith, n.0) in
      rw first ((below, All-map _ _ (λ g k. omega arith) fs h.0), h)
  | inr later ↦ rw later (
    insert_ordered-All (λ g. f.sequence < g.sequence) e fs (ground arith) h.0,
    insert_ordered-IsAscending e fs n.1 h.1,
  )
]

-- The rows that one run's listing selects from sequenced tables have distinct numbers.
selected_ne :
    (t : Tenant) (run_id a : ℕ) (e : EventRecord) (es : List EventRecord)
    → event_of_run t run_id e ≡ true
    → All (λ f. same_place e f ≡ false) es
    → All (λ f. e.sequence ≢ f.sequence) (keep (λ f. event_of_run t run_id f && after a f) es)
selected_ne t run_id a e [] h n = tt
selected_ne t run_id a e (f ∷ fs) h n =
    let rest = selected_ne t run_id a e fs h n.1 in
    elim (Bool-cases (event_of_run t run_id f && after a f)) [
      | inl chosen ↦ rw chosen (ground arith, rest)
      | inr passed ↦ rw passed rest
    ]

order_events-All :
    (P : EventRecord → Type 0) (es : List EventRecord) → All P es → All P (order_events es)
unfolding order_events
order_events-All P [] h = tt
order_events-All P (e ∷ es) h = insert_ordered-All P e _ h.0 (order_events-All P es h.1)

selected-IsAscending :
    (t : Tenant) (run_id a : ℕ) (es : List EventRecord)
    → IsSequenced es
    → IsAscending (order_events (keep (λ e. event_of_run t run_id e && after a e) es))
unfolding order_events
selected-IsAscending t run_id a [] h = tt
selected-IsAscending t run_id a (e ∷ es) h =
    let rest = selected-IsAscending t run_id a es h.1 in
    elim (Bool-cases (event_of_run t run_id e && after a e)) [
      | inl chosen ↦ rw chosen (
          insert_ordered-IsAscending e _
            (order_events-All (λ f. e.sequence ≢ f.sequence) _
              (selected_ne t run_id a e es (ground arith) h.0))
            rest)
      | inr passed ↦ rw passed rest
    ]

-- A listing is strictly ascending.
pub list_events-IsAscending :
    (t : Tenant) (run_id a : ℕ) (db : RunTables)
    → IsSequenced db.events
    → IsAscending (list_events t run_id a db)
unfolding list_events
list_events-IsAscending t run_id a db h = selected-IsAscending t run_id a db.events h

All-middle :
    (P : EventRecord → Type 0) (xs : List EventRecord) (e : EventRecord) (ys : List EventRecord)
    → All P (xs ++ e ∷ ys)
    → P e
All-middle P [] e ys h = h.0
All-middle P (x ∷ xs) e ys h = All-middle P xs e ys h.1

keep_behind :
    (c : ℕ) (ys : List EventRecord) → All (λ f. c < f.sequence) ys → keep (after c) ys ≡ ys
keep_behind c [] h = refl
keep_behind c (y ∷ ys) h = ground (arith, keep_behind c ys h.1, h.0)

keep-above :
    (t : Tenant) (run_id a : ℕ) (es : List EventRecord)
    → All (λ f. a < f.sequence) (keep (λ e. event_of_run t run_id e && after a e) es)
keep-above t run_id a [] = tt
keep-above t run_id a (e ∷ es) = elim (Bool-cases (event_of_run t run_id e && after a e)) [
  | inl chosen ↦ rw chosen (ground arith, keep-above t run_id a es)
  | inr passed ↦ rw passed (keep-above t run_id a es)
]

keep-All :
    (P : EventRecord → Type 0) (p : EventRecord → Bool) (es : List EventRecord)
    → All P es
    → All P (keep p es)
keep-All P p [] h = tt
keep-All P p (e ∷ es) h = elim (Bool-cases (p e)) [
  | inl chosen ↦ rw chosen (h.0, keep-All P p es h.1)
  | inr passed ↦ rw passed (keep-All P p es h.1)
]

-- What holds of every row holds of those that are listed.
pub list_events-All :
    (P : EventRecord → Type 0) (t : Tenant) (run_id a : ℕ) (db : RunTables)
    → All P db.events
    → All P (list_events t run_id a db)
unfolding list_events
list_events-All P t run_id a db h =
    order_events-All P _ (keep-All P (λ e. event_of_run t run_id e && after a e) db.events h)

pub list_events_above :
    (t : Tenant) (run_id a : ℕ) (db : RunTables)
    → All (λ f. a < f.sequence) (list_events t run_id a db)
unfolding list_events
list_events_above t run_id a db =
    order_events-All (λ f. a < f.sequence) _ (keep-above t run_id a db.events)

-- Behind an entry of a strictly ascending list stands what follows it there.
after_entry :
    (xs : List EventRecord) (e : EventRecord) (ys : List EventRecord)
    → IsAscending (xs ++ e ∷ ys)
    → keep (after e.sequence) (xs ++ e ∷ ys) ≡ ys
after_entry (x ∷ xs) e ys h =
    ground (arith, All-middle (λ f. x.sequence < f.sequence) xs e ys h.0, after_entry xs e ys h.1)
after_entry [] e ys h = ground (arith, keep_behind e.sequence ys h.0)

-- A reader that was given the entries up to some event, and comes back with that event's number,
-- is given exactly the rest: nothing is lost and nothing is given twice.
pub list_events_resumed :
    (t : Tenant) (run_id a : ℕ) (db : RunTables) (seen rest : List EventRecord) (e : EventRecord)
    → IsSequenced db.events
    → list_events t run_id a db ≡ seen ++ e ∷ rest
    → list_events t run_id e.sequence db ≡ rest
list_events_resumed t run_id a db seen rest e h listed =
    let above : a < e.sequence =
      All-middle (λ f. a < f.sequence) seen e rest
        (rw listed at (list_events_above t run_id a db)) in
    list_events_later t run_id a e.sequence db (omega arith)
    ∙ ap (keep (after e.sequence)) listed
    ∙ after_entry seen e rest (rw listed at (list_events-IsAscending t run_id a db h))

module _ (t : Tenant) (now run_id : ℕ) (d : EventDocument) (db : RunTables) where
  events-append_event :
      (append_event t now run_id d db).1.events ≡ elim (find (collides t run_id d) db.events) [
        | none ↦ event_record t now run_id d ∷ db.events
        | some _ ↦ db.events
      ]
  unfolding append_event find_event
  events-append_event = ground arith

  -- Appending an event, whether it is new, repeated or refused, keeps the numbers of each run's
  -- events distinct.
  pub append_event-IsSequenced :
      IsSequenced db.events → IsSequenced (append_event t now run_id d db).1.events
  append_event-IsSequenced h = elim (Option-cases (find (collides t run_id d) db.events)) [
    | inl new ↦
        rw (events-append_event, new)
          (
            All-map _ _ (λ f k. ground arith) db.events
                (find-none (collides t run_id d) db.events new),
            h,
          )
    | inr (e, old) ↦ rw (events-append_event, old) h
  ]
