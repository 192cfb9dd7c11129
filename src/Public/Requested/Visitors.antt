-- ===== src/Public/Requested/Visitors.antt =====
-- Visitors without a key, who read the runs that they created.
use Prim.Native.String.{◌++◌}
use universal_agent_studio.Prelude.{
  ℕ, ◌+◌, ◌<◌, ◌≡◌, refl, String, str_mem, remove_prefix-append, true, Option, none, some,
  Option-cases, Result-cases, [], ◌∷◌, ok, inl, inr, arith,
}
use text.Mathlib.TextLemmas.{append_assoc}
use universal_agent_studio.Json.{Fields, obj, get}
use universal_agent_studio.Credentials.{
  Bytes, Library, capability_fields, issue_run_capability, require_master_key, token_of,
  verify_run_capability,
}
use universal_agent_studio.Credentials.Capabilities.{
  IsReliable, granted, verify_run_capability-issue_run_capability,
}
use universal_agent_studio.RunService.{StoredRun}
use universal_agent_studio.RunService.Failure.{Drawing}
use universal_agent_studio.RunService.Requests.{Outside, create_resolved_run, get_run}
use universal_agent_studio.Public.{PublicConfig, PublicState, bearer}
use universal_agent_studio.Public.Creating.{
  ResolvedPublicAgent, create_principal, resolve_agent, web_principal,
}
use universal_agent_studio.Public.Reading.{PublicRunView, is_capability, principal_of}
use universal_agent_studio.Public.Requested.{
  Naming, PublicRunCreateRequest, answer_run, create_public_run, request_name, tenant_of,
  run_request, stored_version,
}

-- The JSON library reads back the fields of the capabilities of an agent.
pub record ReadsBack (lib : Library) (a : String) : Type 0 where
  pub document : ℕ → ℕ → ℕ → ℕ → Fields
  pub loaded :
      (w p r e : ℕ)
      → lib.loads (lib.dumps (obj (capability_fields lib w p a r e)))
        ≡ some (obj (document w p r e))
  pub kept :
      (w p r e : ℕ) (k : String)
      → get k (document w p r e) ≡ get k (capability_fields lib w p a r e)

is_capability-token_of :
    (lib : Library) (key payload : Bytes) → is_capability (token_of lib key payload) ≡ true
is_capability-token_of lib key payload =
    let body = lib.b64encode payload in
    let rest = "." ++ lib.b64encode (lib.mac key payload) in
    rw (append_assoc "uascap_" body rest, remove_prefix-append "uascap_" (body ++ rest)) refl

module _ (config : PublicConfig) (good : IsReliable config.library) (agent_id : String)
    (back : ReadsBack config.library agent_id) (w p run_id expires_at now : ℕ)
    (live : now < expires_at) (scope : String)
    (readable : str_mem scope ("runs:read" ∷ "events:read" ∷ []) ≡ true) where
  issued_parts :
      (raw : String)
      → issue_run_capability config.library config.capability_master w p agent_id run_id expires_at
        ≡ some raw
      → (is_capability raw ≡ true)
        × (verify_run_capability config.library config.capability_master raw agent_id run_id now
            ≡ some (granted w p agent_id run_id))
  unfolding issue_run_capability
  issued_parts raw issued = elim (Option-cases (require_master_key config.capability_master)) [
    | inl short ↦ absurd (ground (arith, short, issued))
    | inr (key, usable) ↦
        let payload =
          config.library.dumps
            (obj (capability_fields config.library w p agent_id run_id expires_at)) in
        let same : token_of config.library key payload ≡ raw = ground (arith, usable, issued) in
        let (raw', issued', verified) =
          verify_run_capability-issue_run_capability config.library good config.capability_master
            key w p agent_id run_id expires_at now (back.document w p run_id expires_at) usable
            (back.loaded w p run_id expires_at) (back.kept w p run_id expires_at) live in
        let equal : raw' ≡ raw = ground (arith, issued', issued) in
        (rw (← same) (is_capability-token_of config.library key payload), rw (← equal) verified)
  ]

  capability_reads :
      (raw : String) (s : PublicState)
      → issue_run_capability config.library config.capability_master w p agent_id run_id expires_at
        ≡ some raw
      → principal_of (record config { now = now }) agent_id run_id scope raw s
        ≡ (ok (granted w p agent_id run_id), s)
  unfolding principal_of
  capability_reads raw s issued =
      let (is, verified) = issued_parts raw issued in rw (is, verified, readable) refl

module _ (config : PublicConfig) (naming : Naming) (r : ResolvedPublicAgent) (agent_id : String)
    (run : StoredRun) (s : PublicState) (view : PublicRunView) where
  answer_run-capability :
      (answer_run config naming r agent_id (web_principal r) run s).0 ≡ ok view
      → (raw : String) × (view.run_capability ≡ some raw)
        × (issue_run_capability config.library config.capability_master r.agent.workspace_id
              r.agent.project_id agent_id view.run_id
              (config.now + naming.capability_ttl_seconds)
            ≡ some raw)
  unfolding answer_run
  answer_run-capability done =
      elim (Option-cases (
        issue_run_capability config.library config.capability_master r.agent.workspace_id
          r.agent.project_id agent_id run.id (config.now + naming.capability_ttl_seconds))) [
            | inl short ↦ absurd (ground (arith, short, done))
            | inr (raw, issued) ↦ (raw, ground (arith, issued, done), ground (arith, issued, done))
          ]

module _ (config : PublicConfig) (o : Outside) (d : Drawing) (naming : Naming) (agent_id : String)
    (body : PublicRunCreateRequest) (idempotency_key : Option String) (s : PublicState)
    (view : PublicRunView) where
  created_for_visitor :
      (create_public_run config o d naming agent_id body idempotency_key none s).0 ≡ ok view
      → (r : ResolvedPublicAgent) × (run : StoredRun) × (later : PublicState) × ((resolve_agent
            agent_id s).0
          ≡ ok r)
        × ((answer_run config naming r agent_id (web_principal r) run later).0 ≡ ok view)
  unfolding create_public_run create_principal bearer request_name
  created_for_visitor done = elim (Result-cases (resolve_agent agent_id s).0) [
    | inr (x, unknown) ↦ absurd (ground (arith, unknown, done))
    | inl (r, resolved) ↦
        let s1 = (resolve_agent agent_id s).1 in
        let make =
          create_resolved_run o d (tenant_of r) naming.fresh_run_id
            (run_request o r body naming.drawn) (stored_version o r) in
        elim (Result-cases (make s1.platform).0) [
          | inr (x, refused) ↦ absurd (ground (arith, resolved, refused, done))
          | inl (made, created) ↦
              let p2 = (make s1.platform).1 in
              elim (Result-cases (get_run o (tenant_of r) made.run_id p2).0) [
                | inr (x, missing) ↦ absurd (ground (arith, resolved, created, missing, done))
                | inl (run, found) ↦
                    let later = record s1 {
                      platform = (get_run o (tenant_of r) made.run_id p2).1;
                    } in
                    (r, run, later, resolved, ground (arith, resolved, created, found, done))
              ]
        ]
  ]

  -- A visitor without a key who creates a run is given a capability that, until it expires, lets in
  -- to read that run and its events, as of the tenant of the published agent, whatever the state is
  -- by then. The JSON library reads back the fields that it wrote of the capabilities of the agent;
  -- base64, digests and UUIDs are reliable.
  pub create_public_run-principal_of :
      IsReliable config.library
      → ReadsBack config.library agent_id
      → (create_public_run config o d naming agent_id body idempotency_key none s).0 ≡ ok view
      → (now : ℕ) (scope : String) (later : PublicState)
      → now < config.now + naming.capability_ttl_seconds
      → str_mem scope ("runs:read" ∷ "events:read" ∷ []) ≡ true
      → (r : ResolvedPublicAgent) × (raw : String) × ((resolve_agent agent_id s).0 ≡ ok r)
        × (view.run_capability ≡ some raw)
        × (principal_of (record config { now = now }) agent_id view.run_id scope raw later
            ≡ (ok (granted r.agent.workspace_id r.agent.project_id agent_id view.run_id), later))
  create_public_run-principal_of good back done now scope later live readable =
      let (r, run, st, resolved, answered) = created_for_visitor done in
      let (raw, given, issued) =
        answer_run-capability config naming r agent_id run st view answered in
      (
        r,
        raw,
        resolved,
        given,
        capability_reads config good agent_id back r.agent.workspace_id r.agent.project_id
            view.run_id (config.now + naming.capability_ttl_seconds) now live scope readable raw
            later issued,
      )
