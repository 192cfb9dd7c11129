-- ===== src/Versions.antt =====
-- libs/python/platform_store/src/universal_agent_platform_store/repositories/agents.py: import and
-- direct activation of agent versions.
pub mod Numbers
pub mod Activation
use universal_agent_studio.Prelude.{
  ℕ, ◌==◌, String, Bool, true, false, ◌&&◌, not, Option, none, some, ◌∷◌, find, any, pure, require,
  gets, modify, guard, ◌>>=◌, ◌>>◌,
}
use universal_agent_studio.Json.{Json, item}
use universal_agent_studio.Catalog.{
  Agent, AgentVersion, Catalog, agent_not_found, agent_version_not_found,
  published_agent_requires_publish, key_error, Action, Tenant, event_of, find_agent, find_active,
  find_digest, find_version, next_number,
}
use universal_agent_studio.Publishing.{check_active, set_active}

pub record ImportArguments : Type 0 where
  pub agent_key : String  -- `str(agent_spec["agent_id"])`; a document without it raises at once
  pub agent_spec : Json
  pub digest : String
  pub fresh_agent_id : ℕ
  pub fresh_version_id : ℕ

-- The agent of the key, made if it is missing.
unfoldable pub agent_for_import : Tenant → ImportArguments → Option Agent → Action Agent
agent_for_import t args (some agent) = pure agent
agent_for_import t args none = do
  require (item "localized_metadata" args.agent_spec) key_error
  let agent : Agent = record {
    id = args.fresh_agent_id;
    workspace_id = t.workspace_id;
    project_id = t.project_id;
    agent_key = args.agent_key;
  }
  modify (λ db. record db { agents = agent ∷ db.agents })
  pure agent

unfoldable pub version_for_import :
    Tenant → ImportArguments → ℕ → Option AgentVersion → Action (AgentVersion × Bool)
version_for_import t args id (some existing) = pure (existing, false)
version_for_import t args id none = do
  number ← gets (next_number id)
  require (item "schema_version" args.agent_spec) key_error
  let version : AgentVersion = record {
    id = args.fresh_version_id;
    workspace_id = t.workspace_id;
    project_id = t.project_id;
    agent_id = id;
    version_number = number;
    digest = args.digest;
    agent_spec = args.agent_spec;
  }
  modify (λ db. record db { versions = version ∷ db.versions })
  pure (version, true)

-- `AgentRepository.import_version`
unfoldable pub import_version : Tenant → ImportArguments → Action (AgentVersion × Bool)
unfolding agent_for_import version_for_import
import_version t args = do
  known ← gets (find_agent t args.agent_key)
  agent ← agent_for_import t args known
  existing ← gets (find_digest t agent.id args.digest)
  version_for_import t args agent.id existing

-- `exists().where(…)`: a publication of either kind
abbrev pub has_publication : Tenant → ℕ → Catalog → Bool
has_publication t id db = any (event_of t id) db.publications

pub record ActivateArguments : Type 0 where
  pub agent_key : String
  pub version_id : ℕ
  pub expected_previous_version_id : Option ℕ

-- `AgentRepository.activate`
unfoldable pub activate : Tenant → ActivateArguments → Action (Unit {0})
unfolding set_active
activate t args = do
  known ← gets (find_agent t args.agent_key)
  agent ← require known agent_not_found
  found ← gets (find_version t agent.id args.version_id)
  version ← require found agent_version_not_found
  published ← gets (has_publication t agent.id)
  guard (not published) published_agent_requires_publish
  active ← gets (find_active t agent.id)
  check_active active args.expected_previous_version_id
  modify (set_active t agent.id version.id active)

-- `AgentRepository.get_version`
unfoldable pub get_version : Tenant → ℕ → Catalog → Option AgentVersion
get_version t version_id db =
    find
      (λ v.
        version_id == v.id && (t.workspace_id == v.workspace_id && t.project_id == v.project_id))
      db.versions
