-- ===== src/Public.antt =====
-- apps/control-api/src/universal_agent_studio_api/publishing/public_service.py: who may use the public
-- API. Its state is the platform and the table of API keys. Times are seconds.
pub mod Keys
pub mod Creating
pub mod Requested
pub mod Reading
pub mod Streaming
pub mod Versions
pub mod Entitlement
pub mod Access
use universal_agent_studio.Prelude.{
  ℕ, ◌==◌, leb, String, str_eq, str_mem, partition, lacks, remove_prefix, codes, length,
  if◌then◌else◌, Bool, true, false, ◌&&◌, ◌||◌, not, is_some, Option, none, some, List, [], ◌∷◌,
  ◌++◌, any, find, keep, update, Result, ok, err, Exec, pure, raise, lift, gets, modify, guard,
  require, ◌>>=◌, ◌>>◌,
}
use universal_agent_studio.Catalog.{Agent, AgentVersion, Catalog, Tenant, in_tenant}
use universal_agent_studio.RunService.{Platform, Service, ServiceError}
use universal_agent_studio.Credentials.{
  Bytes, Library, PublicPrincipal, published_web, api_key, require_master_key,
  verify_run_capability,
}

pub record ApiKey : Type 0 where
  pub id : ℕ
  pub workspace_id : ℕ
  pub project_id : ℕ
  pub agent_id : ℕ
  pub prefix : String
  pub key_hash : String
  pub scopes : List String
  pub expires_at : Option ℕ
  pub revoked_at : Option ℕ
  pub last_used_at : Option ℕ

pub record PublicState : Type 0 where
  pub platform : Platform
  pub keys : List ApiKey

pub data PublicError : Type 0 where
  agent_not_published authentication_required insufficient_scope run_not_found : PublicError
  publishing_master_key_too_short agent_not_found api_key_not_found : PublicError
  invalid_api_key_scope invalid_api_key_expiry idempotency_key_required : PublicError
  service : ServiceError → PublicError

abbrev pub PublicAction : Type 0 → Type 0
PublicAction A = Exec PublicError PublicState A

abbrev pub of_service :
    {A : Type 0}
    → PublicState
    → Result ServiceError A × Platform
    → Result PublicError A × PublicState
of_service s (ok a, p) = (ok a, record s { platform = p })
of_service s (err e, p) = (err (service e), record s { platform = p })

abbrev pub with_service : {A : Type 0} → Service A → PublicAction A
with_service m s = of_service s (m s.platform)

-- The configuration of the service, and the clock.
pub record PublicConfig : Type 0 where
  pub library : Library
  pub api_key_hash_master : Bytes
  pub capability_master : Bytes
  pub now : ℕ

-- `_bearer`
bearer_parts : Library → Option (String × String) → Result PublicError (Option String)
bearer_parts lib none = err authentication_required
bearer_parts lib (some (scheme, value)) =
    if str_eq (lib.lower scheme) "bearer" && (not (str_eq value "") && lacks b' ' value)
    then ok (some value)
    else err authentication_required

unfoldable pub bearer : Library → Option String → Result PublicError (Option String)
unfolding bearer_parts
bearer lib none = ok none
bearer lib (some authorization) = bearer_parts lib (partition b' ' authorization)

-- `raw_key.split("_", 3)` of four parts, the first two of which are fixed: the third.
third_part : Option (String × String) → Option String
third_part none = none
third_part (some (third, rest)) = if length (codes third) == 16 then some third else none

second_part : Option (String × String) → Option String
unfolding third_part
second_part none = none
second_part (some (second, rest)) =
    if str_eq second "live" then third_part (partition b'_' rest) else none

first_part : Option (String × String) → Option String
unfolding second_part
first_part none = none
first_part (some (first, rest)) =
    if str_eq first "uas" then second_part (partition b'_' rest) else none

unfoldable pub key_prefix : String → Option String
unfolding first_part
key_prefix raw_key = first_part (partition b'_' raw_key)

-- The row of the query: the key, joined with its agent.
pub record KeyOfAgent : Type 0 where
  pub key : ApiKey
  pub agent : Agent

abbrev with_agent : ApiKey → Option Agent → Option KeyOfAgent
with_agent key none = none
with_agent key (some agent) = some (record { key = key; agent = agent })

abbrev agent_of : Catalog → Option ApiKey → Option KeyOfAgent
agent_of c none = none
agent_of c (some key) = with_agent key (find (λ a. a.id == key.agent_id) c.agents)

unfoldable pub key_of_agent : String → PublicState → Option KeyOfAgent
key_of_agent prefix s = agent_of s.platform.catalog (find (λ k. str_eq k.prefix prefix) s.keys)

-- `expires_at is None or expires_at > now`
abbrev pub unexpired : ℕ → Option ℕ → Bool
unexpired now none = true
unexpired now (some at) = not (leb at now)

abbrev pub is_current : ℕ → String → KeyOfAgent → Bool
is_current now agent_id row =
    str_eq row.agent.agent_key agent_id
    && (not (is_some row.key.revoked_at) && unexpired now row.key.expires_at)

abbrev pub key_principal : KeyOfAgent → PublicPrincipal
key_principal row = record {
  kind = api_key;
  workspace_id = row.key.workspace_id;
  project_id = row.key.project_id;
  agent_id = row.agent.agent_key;
  scopes = row.key.scopes;
  key_id = some row.key.id;
  run_id = none;
}

-- `verify_api_key_hash`
abbrev pub hash_matches : Library → Bytes → String → KeyOfAgent → Bool
hash_matches lib master raw_key row = str_eq (lib.key_mac master raw_key) row.key.key_hash

-- `_authenticate_api_key`, for the row that the query finds.
unfoldable pub accept_key :
    PublicConfig → String → String → String → KeyOfAgent → PublicAction PublicPrincipal
accept_key config raw_key agent_id required_scope row = do
  guard (is_current config.now agent_id row) authentication_required
  master ← require (require_master_key config.api_key_hash_master) publishing_master_key_too_short
  guard (hash_matches config.library master raw_key row) authentication_required
  guard (str_mem required_scope row.key.scopes) insufficient_scope
  modify (λ s. record s {
    keys =
        update (λ k. k.id == row.key.id) (λ k. record k { last_used_at = some config.now }) s.keys;
  })
  pure (key_principal row)

-- `_authenticate_api_key`
unfoldable pub authenticate_api_key :
    PublicConfig → String → String → String → PublicAction PublicPrincipal
authenticate_api_key config raw_key agent_id required_scope = do
  prefix ← require (key_prefix raw_key) authentication_required
  found ← gets (key_of_agent prefix)
  row ← require found authentication_required
  accept_key config raw_key agent_id required_scope row
