-- ===== src/Public/Keys/Issued.antt =====
-- Keys that were created, as they authenticate.
use Prim.Native.String.{◌++◌}
use universal_agent_studio.Prelude.{
  ℕ, ◌==◌, ◌≡◌, refl, String, str_eq_refl, str_mem, length, codes, lacks, partition-append, true,
  Option-cases, none, some, ◌∷◌, find, find_sound, eq_iff, ok, inl, inr, arith,
}
use universal_agent_studio.Catalog.{Agent, Catalog, Tenant, find_agent, named}
use universal_agent_studio.Credentials.{
  Bytes, Library, PublicPrincipal, api_key, require_master_key,
}
use universal_agent_studio.Public.{
  PublicConfig, PublicState, KeyOfAgent, accept_key, authenticate_api_key, key_of_agent, key_prefix,
  unexpired,
}
use universal_agent_studio.Public.Keys.{
  ApiKeyCreateRequest, DrawnKey, create_api_key, new_key, raw_key,
}

-- The shape of `secrets.token_hex(8)`.
pub record IsHex (d : DrawnKey) : Type 0 where
  pub sixteen : (length (codes d.prefix) == 16) ≡ true
  pub plain : lacks b'_' d.prefix ≡ true

key_prefix-raw_key :
    (lib : Library) (d : DrawnKey) → IsHex d → key_prefix (raw_key lib d) ≡ some d.prefix
unfolding key_prefix
key_prefix-raw_key lib d hex =
    let secret = lib.b64encode d.secret in
    let third = d.prefix ++ String.◌∷◌ "_" secret in
    rw
      (
        partition-append "_" "uas" ("live" ++ String.◌∷◌ "_" third) refl,
        partition-append "_" "live" third refl,
        partition-append "_" d.prefix secret hex.plain,
        hex.sixteen,
      )
      refl

abbrev pub principal : Tenant → String → ApiKeyCreateRequest → DrawnKey → PublicPrincipal
principal t agent_key body d = record {
  kind = api_key;
  workspace_id = t.workspace_id;
  project_id = t.project_id;
  agent_id = agent_key;
  scopes = body.scopes;
  key_id = some d.key_id;
  run_id = none;
}

module _ (config : PublicConfig) (t : Tenant) (agent_key : String) (body : ApiKeyCreateRequest)
    (d : DrawnKey) (s : PublicState) (raw : String) where
  created_parts :
      (create_api_key config t agent_key body d s).0 ≡ ok raw
      → (master : Bytes) × (agent : Agent) × (require_master_key config.api_key_hash_master
          ≡ some master)
        × (find_agent t agent_key s.platform.catalog ≡ some agent)
        × (raw ≡ raw_key config.library d)
        × ((create_api_key config t agent_key body d s).1
            ≡ record s { keys = new_key config t agent body d master ∷ s.keys })
  unfolding create_api_key
  created_parts done = elim (Option-cases (require_master_key config.api_key_hash_master)) [
    | inl short ↦ absurd (ground (arith, short, done))
    | inr (master, usable) ↦ elim (Option-cases (find_agent t agent_key s.platform.catalog)) [
      | inl unknown ↦ absurd (ground (arith, usable, unknown, done))
      | inr (agent, known) ↦ (
        master,
        agent,
        usable,
        known,
        ground (arith, usable, known, done),
        ground (arith, usable, known, done),
      )
    ]
  ]

find_agent-key :
    (t : Tenant) (agent_key : String) (c : Catalog) (agent : Agent)
    → find_agent t agent_key c ≡ some agent
    → agent.agent_key ≡ agent_key
unfolding find_agent
find_agent-key t agent_key c agent e =
    ground (arith, find_sound (named t agent_key) c.agents e, eq_iff agent_key agent.agent_key)

module _ (config : PublicConfig) (t : Tenant) (agent : Agent) (body : ApiKeyCreateRequest)
    (d : DrawnKey) (s : PublicState) (master : Bytes) where
  abbrev row : KeyOfAgent
  row = record { key = new_key config t agent body d master; agent = agent }

  abbrev with_key : PublicState
  with_key = record s { keys = row.key ∷ s.keys }

  row_found :
      find (λ a. a.id == agent.id) s.platform.catalog.agents ≡ some agent
      → key_of_agent d.prefix with_key ≡ some row
  unfolding key_of_agent
  row_found keyed = ground (arith, str_eq_refl d.prefix, keyed)

  row_accepted :
      (agent_key : String) (now : ℕ) (scope : String)
      → require_master_key config.api_key_hash_master ≡ some master
      → agent.agent_key ≡ agent_key
      → unexpired now body.expires_at ≡ true
      → str_mem scope body.scopes ≡ true
      → (accept_key
          (record config { now = now })
          (raw_key config.library d)
          agent_key
          scope
          row
          with_key).0
        ≡ ok (principal t agent_key body d)
  unfolding accept_key
  row_accepted agent_key now scope usable named live granted =
      let hash = config.library.key_mac master (raw_key config.library d) in
      rw (named, str_eq_refl agent_key, live, usable, str_eq_refl hash, granted) refl

module _ (config : PublicConfig) (t : Tenant) (agent_key : String) (body : ApiKeyCreateRequest)
    (d : DrawnKey) (s : PublicState) (raw : String) (agent : Agent) (hex : IsHex d) where
  -- A key that was created is accepted for its agent and each of its scopes until it expires, and
  -- stands for the tenant that created it; what is drawn for its prefix are sixteen characters
  -- without an underscore, and the identifiers of agents are keys.
  pub create_api_key-authenticate_api_key :
      (create_api_key config t agent_key body d s).0 ≡ ok raw
      → find_agent t agent_key s.platform.catalog ≡ some agent
      → find (λ a. a.id == agent.id) s.platform.catalog.agents ≡ some agent
      → (now : ℕ) (scope : String) → unexpired now body.expires_at ≡ true
      → str_mem scope body.scopes ≡ true
      → (authenticate_api_key
          (record config { now = now })
          raw
          agent_key
          scope
          (create_api_key config t agent_key body d s).1).0
        ≡ ok (principal t agent_key body d)
  unfolding authenticate_api_key
  create_api_key-authenticate_api_key done known keyed now scope live granted =
      let (master, found, usable, is_found, is_raw, is_created) =
        created_parts config t agent_key body d s raw done in
      let same : found ≡ agent = ground (arith, known, is_found) in
      let named : agent.agent_key ≡ agent_key =
        find_agent-key t agent_key s.platform.catalog agent known in
      rw
        (
          is_raw,
          is_created,
          same,
          key_prefix-raw_key config.library d hex,
          row_found config t agent body d s master keyed,
        )
        (row_accepted config t agent body d s master agent_key now scope usable named live granted)
