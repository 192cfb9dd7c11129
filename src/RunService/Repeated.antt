-- ===== src/RunService/Repeated.antt =====
-- Requests that clients of the run service repeat.
use universal_agent_studio.Prelude.{
  ℕ, ◌≡◌, refl, ◌∙◌, String, str_eq, Bool, true, false, ◌&&◌, some, ok, inl, inr, Bool-cases,
  Option-cases, Result-cases, arith,
}
use universal_agent_studio.Catalog.{Tenant}
use universal_agent_studio.Runs.{CreateArguments}
use universal_agent_studio.RunService.{
  start, Platform, StoredRun, persist_idempotent, set_durable_execution_id,
}
use universal_agent_studio.RunService.Failure.{Drawing}
use universal_agent_studio.RunService.Requests.{
  Outside, CreateRunRequest, CreateRunView, StoredAgentVersion, create_resolved_run, run_created,
  start_durable, new_arguments, needs_start, command_of, log,
}
use universal_agent_studio.RunService.Persisted.{
  persist_idempotent-repeated, persist_idempotent-durable, persist_idempotent-log,
}

module _ (o : Outside) (d : Drawing) (t : Tenant) (a : CreateArguments)
    (version : StoredAgentVersion) (p : Platform) (s : StoredRun)
    (known : persist_idempotent o.rendering t a p ≡ (ok (s, false), p)) where
  abbrev after_start : Platform
  after_start = (start_durable o d t s version p).1

  -- Once the durable execution is started, a repetition finds its identifier.
  persist_idempotent-start_durable :
      {u : Unit {0}}
      → (start_durable o d t s version p).0 ≡ ok u
      → (durable_id : String) × (persist_idempotent o.rendering t a after_start
          ≡ (ok (record s { durable_execution_id = some durable_id }, false), after_start))
  unfolding start_durable
  persist_idempotent-start_durable done =
      let p2 = log (start (command_of s version)) p in
      let logged =
        persist_idempotent-log o.rendering t a p s (start (command_of s version)) known in
      elim (Option-cases (o.start_run (command_of s version))) [
        | inl refused ↦ absurd (ground (arith, done, refused))
        | inr (durable_id, accepted) ↦
            let again = persist_idempotent-durable o.rendering t a p2 s durable_id logged in
            elim (Result-cases (set_durable_execution_id t s.id durable_id p2).0) [
              | inl (u, set) ↦
                  let same : after_start ≡ (set_durable_execution_id t s.id durable_id p2).1 =
                    ground (arith, accepted, set) in
                  (durable_id, rw (same) again)
              | inr (x, lost) ↦ absurd (ground (arith, done, accepted, lost))
            ]
      ]

module _ (o : Outside) (d later : Drawing) (t : Tenant) (b : CreateArguments)
    (version : StoredAgentVersion) (p : Platform) (s : StoredRun) (made : Bool) (v : CreateRunView)
    (known : persist_idempotent o.rendering t b p ≡ (ok (s, false), p)) where
  abbrev after_created : Platform
  after_created = (run_created o d t version (s, made) p).1

  -- What the service does for a run that is found again.
  run_created-repeated :
      (run_created o d t version (s, made) p).0 ≡ ok v
      → (again : StoredRun) × (persist_idempotent o.rendering t b after_created
          ≡ (ok (again, false), after_created))
        × (run_created o later t version (again, false) after_created
            ≡ (ok (record v { reused = true }), after_created))
  unfolding run_created
  run_created-repeated done = elim (Bool-cases (needs_start s)) [
    | inl needed ↦ elim (Result-cases (start_durable o d t s version p).0) [
      | inl (u, set) ↦
          let (durable_id, found) =
            persist_idempotent-start_durable o d t b version p s known set in
          let same : after_created ≡ (start_durable o d t s version p).1 =
            ground (arith, done, needed, set) in
          (
            record s { durable_execution_id = some durable_id },
            rw (same) found,
            rw (same) (ground (arith, done, needed, set)),
          )
      | inr (x, lost) ↦ absurd (ground (arith, done, needed, lost))
    ]
    | inr settled ↦
        let same : after_created ≡ p = ground (arith, done, settled) in
        (s, rw (same) known, rw (same) (ground (arith, done, settled)))
  ]

module _ (o : Outside) (d : Drawing) (t : Tenant) (fresh : ℕ) (request : CreateRunRequest)
    (version : StoredAgentVersion) (p : Platform) where
  abbrev is_admitted : Bool
  is_admitted =
      str_eq version.public_id request.agent_version_id
      && (str_eq version.digest request.agent_version_digest
          && o.input_valid version.agent_spec request.input)

  created_by :
      {p1 : Platform} {made : StoredRun × Bool}
      → is_admitted ≡ true
      → persist_idempotent o.rendering t (new_arguments o request version fresh) p ≡ (ok made, p1)
      → create_resolved_run o d t fresh request version p ≡ run_created o d t version made p1
  unfolding create_resolved_run
  created_by admitted e = ground (arith, admitted, e)

  created_parts :
      {v : CreateRunView}
      → (create_resolved_run o d t fresh request version p).0 ≡ ok v
      → (made : StoredRun × Bool) × (is_admitted ≡ true)
        × ((persist_idempotent o.rendering t (new_arguments o request version fresh) p).0 ≡ ok made)
  unfolding create_resolved_run
  created_parts done =
      elim (Result-cases
        (persist_idempotent o.rendering t (new_arguments o request version fresh) p).0) [
          | inl (made, e) ↦ (made, ground (arith, done), e)
          | inr (x, e) ↦ absurd (ground (arith, done, e))
        ]

module _ (o : Outside) (d later : Drawing) (t : Tenant) (fresh other : ℕ)
    (request : CreateRunRequest) (version : StoredAgentVersion) (p : Platform)
    (v : CreateRunView) where
  -- A request that was answered, and is made again, is answered by the same view of the same run,
  -- marked as reused, and changes nothing: above all, nothing is asked of the durable execution.
  pub create_resolved_run-repeated :
      (create_resolved_run o d t fresh request version p).0 ≡ ok v
      → create_resolved_run o later t other request version
          (create_resolved_run o d t fresh request version p).1
        ≡ (ok (record v { reused = true }), (create_resolved_run o d t fresh request version p).1)
  create_resolved_run-repeated done =
      let ((s, made), admitted, e) = created_parts o d t fresh request version p done in
      let a = new_arguments o request version fresh in
      let b = new_arguments o request version other in
      let p1 = (persist_idempotent o.rendering t a p).1 in
      let eq : create_resolved_run o d t fresh request version p
          ≡ run_created o d t version (s, made) p1 =
        created_by o d t fresh request version p admitted (ground (arith, e)) in
      let known = persist_idempotent-repeated o.rendering t a b p s made refl refl e in
      let (again, found, answer) =
        run_created-repeated o d later t b version p1 s made v known (rw eq at done) in
      rw (eq) (created_by o later t other request version _ admitted found ∙ answer)
