-- ===== src/Public/Entitlement.antt =====
-- publishing/public_service.py: what entitles a bearer to read a run.

pub mod Capability
pub mod Keys
use universal_agent_studio.Prelude.{
  ℕ, leb, ◌<◌, ◌==◌, ◌≡◌, ◌⊎◌, refl, sym, subst, String, str_eq, str_mem, eq_iff, true, false, Bool,
  not, Bool-cases, Option, Option-cases, none, some, ◌∷◌, [], find, find_sound, ok, inl, inr, arith,
  partition, remove_prefix, ==_iff, Result-cases,
}
use universal_agent_studio.Json.{Json, Fields, ℤ, pos, negsuc, int, obj, get, json_eq}
use universal_agent_studio.Catalog.{Agent, Tenant}
use universal_agent_studio.Credentials.{
  Bytes, Library, PublicPrincipal, read_capability, signed_payload, require_master_key, text_of,
  uuid_of, integer_of, expired, verify_run_capability,
}
use universal_agent_studio.Public.{
  ApiKey, PublicConfig, PublicState, KeyOfAgent, accept_key, authenticate_api_key, key_of_agent,
  key_prefix, is_current, unexpired, key_principal,
}
use universal_agent_studio.Public.Reading.{is_capability, principal_of, scope_of}

-- The value of a field of a document.
abbrev pub Field : Fields → String → (Json → Type 0) → Type 0
Field document key P = (v : Json) × (get key document ≡ some v) × P v

abbrev pub IsAfter : ℕ → ℤ → Type 0
IsAfter now (pos n) = now < n
IsAfter now (negsuc n) = ⊥

-- A text of a prefix, a payload, a dot and a signature that the master key gives of the payload.
abbrev pub IsSigned : Library → Bytes → String → Bytes → Type 0
IsSigned lib master_key raw payload =
    (front : String) × (back : String) × (partition b'.' raw ≡ some (front, back))
    × (body : String) × (remove_prefix "uascap_" front ≡ some body)
    × (lib.b64decode body ≡ some payload)
    × (signature : Bytes) × (lib.b64decode back ≡ some signature)
    × (key : Bytes) × (require_master_key master_key ≡ some key)
    × (lib.compare_digest signature (lib.mac key payload) ≡ true)

-- The document of a capability for a run of an agent, in a tenant, that has not expired.
abbrev pub Names : Library → ℕ → String → ℕ → Tenant → Fields → Type 0
Names lib now agent_id run_id t document =
    Field document "v" (λ v. json_eq v (int (pos 1)) ≡ true)
    × Field document "a" (λ v. text_of lib v ≡ agent_id)
    × Field document "r" (λ v. uuid_of lib v ≡ some run_id)
    × Field document "w" (λ v. uuid_of lib v ≡ some t.workspace_id)
    × Field document "p" (λ v. uuid_of lib v ≡ some t.project_id)
    × Field document "exp" (λ v. (n : ℤ) × (integer_of lib v ≡ some n) × IsAfter now n)

-- A capability, which is one for reading a run and its events.
abbrev pub HoldsCapability : PublicConfig → String → ℕ → String → String → Tenant → Type 0
HoldsCapability config agent_id run_id required_scope raw t =
    (payload : Bytes) × IsSigned config.library config.capability_master raw payload
    × (document : Fields) × (config.library.loads payload ≡ some (obj document))
    × Names config.library config.now agent_id run_id t document
    × ((required_scope ≡ "runs:read") ⊎ (required_scope ≡ "events:read"))

abbrev pub IsLive : ℕ → Option ℕ → Type 0
IsLive now none = Unit
IsLive now (some at) = now < at

-- A key of the table, found by the prefix of what is shown, that is made for the agent, the tenant
-- and the scope, is neither revoked nor expired, and has the hash of what is shown.
abbrev pub HoldsKey : PublicConfig → PublicState → String → String → String → Tenant → Type 0
HoldsKey config s agent_id required_scope raw t =
    (k : ApiKey) × (key_prefix raw ≡ some k.prefix)
    × (find (λ x. str_eq x.prefix k.prefix) s.keys ≡ some k)
    × (a : Agent) × (find (λ x. x.id == k.agent_id) s.platform.catalog.agents ≡ some a)
    × (a.agent_key ≡ agent_id)
    × (k.workspace_id ≡ t.workspace_id)
    × (k.project_id ≡ t.project_id)
    × (str_mem required_scope k.scopes ≡ true)
    × (k.revoked_at ≡ none)
    × IsLive config.now k.expires_at
    × (master : Bytes) × (require_master_key config.api_key_hash_master ≡ some master)
    × (config.library.key_mac master raw ≡ k.key_hash)

-- What entitles to read a run of an agent in a tenant.
abbrev pub IsEntitled : PublicConfig → PublicState → String → ℕ → String → String → Tenant → Type 0
IsEntitled config s agent_id run_id required_scope raw t =
    HoldsCapability config agent_id run_id required_scope raw t
    ⊎ HoldsKey config s agent_id required_scope raw t
