-- ===== src/RunService/Persisted.antt =====
-- Runs that the run repository created, as they are found again by a repeated creation.
use universal_agent_studio.Prelude.{
  ◌≡◌, refl, String, Bool, false, some, ok, inl, inr, Option-cases, Result-cases, find, List,
  find_sound, find-update, update, arith,
}
use universal_agent_studio.Catalog.{Tenant}
use universal_agent_studio.Runs.{
  Run, RunTables, CreateArguments, create_idempotent, find_run, find_request, run_of,
}
use universal_agent_studio.Runs.Idempotency.{create_idempotent-repeated}
use universal_agent_studio.RunDocuments.{Rendering}
use universal_agent_studio.RunService.{
  Asked, Platform, StoredRun, persist_idempotent, set_durable_execution_id, stored, with_durable_id,
}
use universal_agent_studio.RunService.Requests.{log}

-- `_stored` only reads.
stored_reads : (r : Rendering) (run : Run) (p : Platform) → (stored r run p).1 ≡ p
unfolding stored
stored_reads r run p = ground arith

module _ (r : Rendering) (t : Tenant) (a b : CreateArguments) (p : Platform) (s : StoredRun)
    (made : Bool) (same_key : b.idempotency_key ≡ a.idempotency_key)
    (same_digest : b.request_digest ≡ a.request_digest) where
  pub persist_idempotent-repeated :
      (persist_idempotent r t a p).0 ≡ ok (s, made)
      → persist_idempotent r t b (persist_idempotent r t a p).1
        ≡ (ok (s, false), (persist_idempotent r t a p).1)
  unfolding persist_idempotent
  persist_idempotent-repeated done =
      let p1 : Platform = record p { runs = (create_idempotent t a p.runs).1 } in
      elim (Result-cases (create_idempotent t a p.runs).0) [
        | inl ((run, new), e) ↦
            let again = create_idempotent-repeated t a b p.runs run new same_key e same_digest in
            elim (Result-cases (stored r run p1).0) [
              | inl (s', e') ↦ ground (arith, e, e', again, done, stored_reads r run p1)
              | inr (x, e') ↦ ground (arith, e, e', done)
            ]
        | inr (x, e) ↦ ground (arith, e, done)
      ]

-- A run that `_stored` finds keeps its identifier there.
stored-id :
    (r : Rendering) (run : Run) (p : Platform) {s : StoredRun}
    → (stored r run p).0 ≡ ok s
    → s.id ≡ run.id
unfolding stored
stored-id r run p e = ground arith

module _ (t : Tenant) (a : CreateArguments) (db : RunTables) (durable_id : String) (run : Run)
    (known : create_idempotent t a db ≡ (ok (run, false), db)) where
  abbrev with_durable : RunTables
  with_durable = record db { runs = update (run_of t run.id) (with_durable_id durable_id) db.runs }

  -- A repeated creation finds the row as it is now.
  create_idempotent-durable :
      create_idempotent t a with_durable
      ≡ (ok (with_durable_id durable_id run, false), with_durable)
  unfolding create_idempotent find_request find_run
  create_idempotent-durable = elim (Option-cases (find_request t a.idempotency_key db)) [
    | inl new ↦ ground (arith, new, known)
    | inr (q, old) ↦ elim (Option-cases (find (run_of t q.resolved_run_id) db.runs)) [
      | inl missing ↦ ground (arith, old, missing, known)
      | inr (found, e) ↦ ground (
        arith,
        old,
        e,
        known,
        find_sound (run_of t q.resolved_run_id) db.runs e,
        find-update (run_of t q.resolved_run_id) (run_of t run.id) (with_durable_id durable_id)
            (λ x. refl) db.runs,
      )
    ]
  ]

  find_run_known : find_run t run.id db ≡ some run
  unfolding create_idempotent find_request find_run
  find_run_known = elim (Option-cases (find_request t a.idempotency_key db)) [
    | inl new ↦ ground (arith, new, known)
    | inr (q, old) ↦ elim (Option-cases (find (run_of t q.resolved_run_id) db.runs)) [
      | inl missing ↦ ground (arith, old, missing, known)
      | inr (found, e) ↦
          ground (arith, old, e, known, find_sound (run_of t q.resolved_run_id) db.runs e)
    ]
  ]

module _ (r : Rendering) (t : Tenant) (a : CreateArguments) (p : Platform) (s : StoredRun)
    (known : persist_idempotent r t a p ≡ (ok (s, false), p)) where
  persist_idempotent-parts :
      (run : Run) × (create_idempotent t a p.runs ≡ (ok (run, false), p.runs))
      × ((stored r run p).0 ≡ ok s)
  unfolding persist_idempotent
  persist_idempotent-parts =
      let p1 : Platform = record p { runs = (create_idempotent t a p.runs).1 } in
      elim (Result-cases (create_idempotent t a p.runs).0) [
        | inl ((run, new), e) ↦ elim (Result-cases (stored r run p1).0) [
          | inl (s', e') ↦
              let same : p1 ≡ p = ground (arith, e, e', known, stored_reads r run p1) in
              (run, ground (arith, e, e', known, same), ground (arith, e, e', known, same))
          | inr (x, e') ↦ absurd (ground (arith, e, e', known))
        ]
        | inr (x, e) ↦ absurd (ground (arith, e, known))
      ]

module _ (r : Rendering) (durable_id : String) (run : Run) (p : Platform) (rows : List Run)
    (s : StoredRun) where
  stored-durable :
      (stored r run p).0 ≡ ok s
      → (stored r
          (with_durable_id durable_id run)
          (record p { runs = record p.runs { runs = rows } })).0
        ≡ ok (record s { durable_execution_id = some durable_id })
  unfolding stored
  stored-durable e = ground (arith, e)

module _ (r : Rendering) (t : Tenant) (a : CreateArguments) (p : Platform) (s : StoredRun)
    (durable_id : String) (known : persist_idempotent r t a p ≡ (ok (s, false), p)) where
  abbrev pub started : Platform
  started = (set_durable_execution_id t s.id durable_id p).1

  -- The durable identifier shows in what the repetition of a request finds.
  pub persist_idempotent-durable :
      persist_idempotent r t a started
      ≡ (ok (record s { durable_execution_id = some durable_id }, false), started)
  unfolding persist_idempotent set_durable_execution_id
  persist_idempotent-durable =
      let (run, found, e) = persist_idempotent-parts r t a p s known in
      let rows = update (run_of t run.id) (with_durable_id durable_id) p.runs.runs in
      let p1 : Platform = record p { runs = record p.runs { runs = rows } } in
      ground (
        arith,
        found,
        stored-id r run p e,
        find_run_known t a p.runs durable_id run found,
        create_idempotent-durable t a p.runs durable_id run found,
        stored-durable r durable_id run p rows s e,
        stored_reads r (with_durable_id durable_id run) p1,
      )

module _ (r : Rendering) (t : Tenant) (a : CreateArguments) (p : Platform) (s : StoredRun)
    (more : Asked) (known : persist_idempotent r t a p ≡ (ok (s, false), p)) where
  -- The log plays no part in it.
  pub persist_idempotent-log : persist_idempotent r t a (log more p) ≡ (ok (s, false), log more p)
  unfolding persist_idempotent stored
  persist_idempotent-log =
      let (run, found, e) = persist_idempotent-parts r t a p s known in ground (arith, found, e)
