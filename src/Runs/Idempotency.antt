-- ===== src/Runs/Idempotency.antt =====
-- Repeated writes of the run repository.
use universal_agent_studio.Prelude.{
  ℕ, ◌≡◌, ◌≢◌, str_eq_refl, eq_iff, Bool, false, ok, err, arith, find, find_sound, Option-cases,
  inl, inr,
}
use universal_agent_studio.Json.Equality.{HasDistinctKeys, json_eq_refl}
use universal_agent_studio.Catalog.{Tenant}
use universal_agent_studio.Runs.{
  Run, RunTables, CreateArguments, EventDocument, EventRecord, TraceDocument, TraceRecord,
  idempotency_key_reused, create_idempotent, append_event, finalize_trace, find_request, find_run,
  find_event, find_trace, run_of,
}

module _ (t : Tenant) (a b : CreateArguments) (db : RunTables) (run : Run) (made : Bool)
    (same_key : b.idempotency_key ≡ a.idempotency_key)
    (done : (create_idempotent t a db).0 ≡ ok (run, made)) where
  -- A request that repeats the key and the digest of an accepted one gets the same run back, as a
  -- run that was not created now, and changes nothing.
  pub create_idempotent-repeated :
      b.request_digest ≡ a.request_digest
      → create_idempotent t b (create_idempotent t a db).1
        ≡ (ok (run, false), (create_idempotent t a db).1)
  unfolding create_idempotent find_request find_run
  create_idempotent-repeated same_digest =
      ground (arith, str_eq_refl a.idempotency_key, str_eq_refl a.request_digest)

  -- A request that repeats the key with another digest is refused, and changes nothing.
  pub create_idempotent-reused :
      b.request_digest ≢ a.request_digest
      → create_idempotent t b (create_idempotent t a db).1
        ≡ (err idempotency_key_reused, (create_idempotent t a db).1)
  unfolding create_idempotent find_request find_run
  create_idempotent-reused other_digest =
      elim (Option-cases (find_request t a.idempotency_key db)) [
        | inl new ↦
            ground (arith, str_eq_refl a.idempotency_key, eq_iff a.request_digest b.request_digest)
        | inr (r, old) ↦ ground (
          arith,
          str_eq_refl a.idempotency_key,
          eq_iff r.request_digest a.request_digest,
          eq_iff r.request_digest b.request_digest,
        )
      ]

module _ (t : Tenant) (now later run_id : ℕ) (d : EventDocument) (db : RunTables)
    (row : EventRecord) (made : Bool) where
  -- An event that was accepted is accepted again, with the same row, and changes nothing: neither
  -- the events nor the status and start of the run.
  pub append_event-repeated :
      HasDistinctKeys d.content
      → (append_event t now run_id d db).0 ≡ ok (row, made)
      → append_event t later run_id d (append_event t now run_id d db).1
        ≡ (ok (row, false), (append_event t now run_id d db).1)
  unfolding append_event find_event find_run
  append_event-repeated distinct done = ground (arith, json_eq_refl d.content distinct)

module _ (t : Tenant) (now later fresh other run_id : ℕ) (d : TraceDocument) (db : RunTables)
    (row : TraceRecord) (made : Bool) where
  -- A trace that was accepted is accepted again, with the same row, and changes nothing.
  pub finalize_trace-repeated :
      HasDistinctKeys d.content
      → (finalize_trace t now fresh run_id d db).0 ≡ ok (row, made)
      → finalize_trace t later other run_id d (finalize_trace t now fresh run_id d db).1
        ≡ (ok (row, false), (finalize_trace t now fresh run_id d db).1)
  unfolding finalize_trace find_trace find_run
  finalize_trace-repeated distinct done = elim (Option-cases (find (run_of t run_id) db.runs)) [
    | inl missing ↦ ground (arith, json_eq_refl d.content distinct)
    | inr (run, known) ↦
        ground (arith, json_eq_refl d.content distinct, find_sound (run_of t run_id) db.runs known)
  ]
