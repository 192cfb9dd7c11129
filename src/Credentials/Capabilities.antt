-- ===== src/Credentials/Capabilities.antt =====
-- Run capabilities that were issued, as they are verified.
use Prim.Native.String.{◌++◌}
use Prim.Native.String.append
use universal_agent_studio.Prelude.{
  ℕ, ◌<◌, ==_refl, ◌≡◌, refl, String, str_eq_refl, true, none, some, [], ◌∷◌, lacks, lacks-append,
  partition-append, remove_prefix-append, arith,
}
use universal_agent_studio.Json.{Fields, obj, get, json_eq}
use universal_agent_studio.Credentials.{
  Bytes, Library, PublicPrincipal, run_capability, capability_fields, issue_run_capability,
  read_capability, require_master_key, signed_payload, token_of, verify_run_capability,
}

-- What is relied on: base64 is decoded to what was encoded, and its texts hold no dot; a digest
-- equals itself; the text of a UUID is parsed back.
pub record IsReliable (lib : Library) : Type 0 where
  pub decodes : (b : Bytes) → lib.b64decode (lib.b64encode b) ≡ some b
  pub dotless : (b : Bytes) → lacks b'.' (lib.b64encode b) ≡ true
  pub same : (b : Bytes) → lib.compare_digest b b ≡ true
  pub parses : (n : ℕ) → lib.parse_uuid (lib.uuid_text n) ≡ some n

module _ (lib : Library) (good : IsReliable lib) (master_key key payload : Bytes)
    (usable : require_master_key master_key ≡ some key) where
  signed_payload-token_of : signed_payload lib master_key (token_of lib key payload) ≡ some payload
  unfolding signed_payload
  signed_payload-token_of =
      let signature = lib.mac key payload in
      let front : lacks b'.' ("uascap_" ++ lib.b64encode payload) ≡ true =
        lacks-append b'.' "uascap_" (lib.b64encode payload) refl (good.dotless payload) in
      rw
        (
          append.cons "." "" (lib.b64encode signature),
          append.nil (lib.b64encode signature),
          partition-append "." ("uascap_" ++ lib.b64encode payload) (lib.b64encode signature) front,
          remove_prefix-append "uascap_" (lib.b64encode payload),
          good.decodes payload,
          good.decodes signature,
          usable,
          good.same signature,
        )
        refl

abbrev pub granted : ℕ → ℕ → String → ℕ → PublicPrincipal
granted workspace_id project_id agent_id run_id = record {
  kind = run_capability;
  workspace_id = workspace_id;
  project_id = project_id;
  agent_id = agent_id;
  scopes = "runs:read" ∷ "events:read" ∷ [];
  key_id = none;
  run_id = some run_id;
}

module _ (lib : Library) (good : IsReliable lib) (workspace_id project_id : ℕ) (agent_id : String)
    (run_id expires_at now : ℕ) (document : Fields)
    (kept : (k : String)
      → get k document
        ≡ get k (capability_fields lib workspace_id project_id agent_id run_id expires_at))
    (live : now < expires_at) where
  read_capability-granted :
      read_capability lib document agent_id run_id now
      ≡ some (granted workspace_id project_id agent_id run_id)
  unfolding read_capability get json_eq
  read_capability-granted =
      rw (kept "v", kept "a", kept "r", kept "exp", kept "w", kept "p")
        (ground (
          arith,
          good.parses run_id,
          good.parses workspace_id,
          good.parses project_id,
          str_eq_refl agent_id,
          ==_refl run_id,
        ))

-- A capability that is issued with a usable master key is verified with that key until it expires,
-- for its agent and run, and then grants reading the run and its events, for its tenant and run. The
-- JSON library reads back the fields of the document that it wrote; base64, digests and UUIDs are
-- as reliable as said above.
pub verify_run_capability-issue_run_capability :
    (lib : Library) (good : IsReliable lib) (master_key key : Bytes) (workspace_id project_id : ℕ)
    (agent_id : String) (run_id expires_at now : ℕ) (document : Fields)
    → require_master_key master_key ≡ some key
    → lib.loads
        (lib.dumps (obj (capability_fields lib workspace_id project_id agent_id run_id expires_at)))
      ≡ some (obj document)
    → ((k : String)
        → get k document
          ≡ get k (capability_fields lib workspace_id project_id agent_id run_id expires_at))
    → now < expires_at
    → (raw : String) × (issue_run_capability lib master_key workspace_id project_id agent_id run_id
          expires_at
        ≡ some raw)
      × (verify_run_capability lib master_key raw agent_id run_id now
          ≡ some (granted workspace_id project_id agent_id run_id))
unfolding issue_run_capability verify_run_capability
verify_run_capability-issue_run_capability lib good master_key key workspace_id project_id agent_id
      run_id expires_at now document usable loaded kept live =
    let payload =
      lib.dumps (obj (capability_fields lib workspace_id project_id agent_id run_id expires_at)) in
    (
      token_of lib key payload,
      rw (usable) refl,
      rw (signed_payload-token_of lib good master_key key payload usable, loaded)
          (read_capability-granted lib good workspace_id project_id agent_id run_id expires_at now
            document kept live),
    )
