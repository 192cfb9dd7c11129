-- ===== src/Public/Keys.antt =====
-- The keys of the public API: `issue_api_key` of publishing/crypto.py, the key methods of
-- PublishingService in publishing/service.py, and ApiKeyRepository of
-- store/repositories/publishing.py. Labels are left out.
pub mod Issued
use Prim.Native.String.{◌++◌}
use universal_agent_studio.Prelude.{
  ℕ, ◌==◌, ◌+◌, leb, String, str_mem, Bool, true, false, ◌&&◌, not, is_some, Option, none, some,
  List, [], ◌∷◌, all, find, keep, update, if◌then◌else◌, pure, require, gets, modify, guard, ◌>>=◌,
  ◌>>◌,
}
use universal_agent_studio.Catalog.{Agent, Tenant, find_agent, in_tenant}
use universal_agent_studio.Credentials.{Bytes, Library, require_master_key}
use universal_agent_studio.Public.{
  ApiKey, PublicAction, PublicConfig, PublicError, PublicState, agent_not_found, api_key_not_found,
  invalid_api_key_expiry, invalid_api_key_scope, publishing_master_key_too_short,
}

pub record ApiKeyCreateRequest : Type 0 where
  pub scopes : List String
  pub expires_at : Option ℕ

-- What `uuid4` and `secrets` draw for a key.
pub record DrawnKey : Type 0 where
  pub key_id : ℕ
  pub prefix : String
  pub secret : Bytes

-- f"uas_live_{prefix}_{secret}"
abbrev pub raw_key : Library → DrawnKey → String
raw_key lib d =
    "uas"
    ++ String.◌∷◌ "_"
        ("live" ++ String.◌∷◌ "_" (d.prefix ++ String.◌∷◌ "_" (lib.b64encode d.secret)))

abbrev pub known_scopes : List String
known_scopes = "runs:create" ∷ "runs:read" ∷ "events:read" ∷ []

abbrev pub scopes_known : List String → Bool
scopes_known [] = false
scopes_known (s ∷ ss) = all (λ x. str_mem x known_scopes) (s ∷ ss)

-- `MAX_API_KEY_LIFETIME` is 366 days.
abbrev pub expiry_valid : ℕ → Option ℕ → Bool
expiry_valid now none = true
expiry_valid now (some at) = not (leb at now) && leb at (now + 31622400)

abbrev pub new_key : PublicConfig → Tenant → Agent → ApiKeyCreateRequest → DrawnKey → Bytes → ApiKey
new_key config t agent body d master = record {
  id = d.key_id;
  workspace_id = t.workspace_id;
  project_id = t.project_id;
  agent_id = agent.id;
  prefix = d.prefix;
  key_hash = config.library.key_mac master (raw_key config.library d);
  scopes = body.scopes;
  expires_at = body.expires_at;
  revoked_at = none;
  last_used_at = none;
}

abbrev agent_of_key : Tenant → String → PublicAction Agent
agent_of_key t agent_key = do
  found ← gets (λ s. find_agent t agent_key s.platform.catalog)
  require found agent_not_found

-- `create_api_key`: the text of the key.
unfoldable pub create_api_key :
    PublicConfig → Tenant → String → ApiKeyCreateRequest → DrawnKey → PublicAction String
create_api_key config t agent_key body d = do
  guard (scopes_known body.scopes) invalid_api_key_scope
  guard (expiry_valid config.now body.expires_at) invalid_api_key_expiry
  master ← require (require_master_key config.api_key_hash_master) publishing_master_key_too_short
  agent ← agent_of_key t agent_key
  modify (λ s. record s { keys = new_key config t agent body d master ∷ s.keys })
  pure (raw_key config.library d)

abbrev key_in : Tenant → ℕ → ApiKey → Bool
key_in t agent_id k = in_tenant t k.workspace_id k.project_id && agent_id == k.agent_id

-- `list_api_keys`
unfoldable pub list_api_keys : Tenant → String → PublicAction (List ApiKey)
list_api_keys t agent_key = do
  agent ← agent_of_key t agent_key
  gets (λ s. keep (key_in t agent.id) s.keys)

abbrev revoked_key : ℕ → ApiKey → ApiKey
revoked_key now k = if is_some k.revoked_at then k else record k { revoked_at = some now }

-- `revoke_api_key`
unfoldable pub revoke_api_key : PublicConfig → Tenant → String → ℕ → PublicAction ApiKey
revoke_api_key config t agent_key key_id = do
  agent ← agent_of_key t agent_key
  found ← gets (λ s. find (λ k. key_id == k.id && key_in t agent.id k) s.keys)
  key ← require found api_key_not_found
  modify (λ s. record s {
    keys = update (λ k. key_id == k.id && key_in t agent.id k) (revoked_key config.now) s.keys;
  })
  pure (revoked_key config.now key)
