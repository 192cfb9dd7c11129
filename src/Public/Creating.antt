-- ===== src/Public/Creating.antt =====
-- publishing/public_service.py: the agent that a public identifier stands for, and who may create runs of it.
use universal_agent_studio.Prelude.{
  ◌==◌, String, str_eq, Bool, ◌&&◌, Option, none, some, List, [], ◌∷◌, ◌++◌, any, find, keep, pure,
  lift, gets, guard, require, ◌>>=◌, ◌>>◌,
}
use universal_agent_studio.Catalog.{Agent, AgentVersion, Catalog, in_tenant}
use universal_agent_studio.Credentials.{PublicPrincipal, published_web}
use universal_agent_studio.Public.{
  PublicAction, PublicConfig, authentication_required, agent_not_published, authenticate_api_key,
  bearer,
}

pub record ResolvedPublicAgent : Type 0 where
  pub agent : Agent
  pub version : AgentVersion

-- The join of `_resolve_agent`: published agents of the key, with their active versions.
abbrev is_published : Catalog → Agent → Bool
is_published c a =
    any
      (λ e.
        e.agent_id == a.id
        && in_tenant (record { workspace_id = a.workspace_id; project_id = a.project_id })
            e.workspace_id e.project_id)
      c.publications

abbrev resolved : Agent → Option AgentVersion → List ResolvedPublicAgent
resolved a none = []
resolved a (some v) = record { agent = a; version = v } ∷ []

abbrev active_versions : Catalog → Agent → List ResolvedPublicAgent
active_versions c a = elim (find (λ x. x.agent_id == a.id) c.actives) [
  | none ↦ []
  | some x ↦ resolved a (find (λ v. v.id == x.version_id) c.versions)
]

unfoldable pub joined_agents : Catalog → List Agent → List ResolvedPublicAgent
joined_agents c [] = []
joined_agents c (a ∷ rest) = active_versions c a ++ joined_agents c rest

-- `_resolve_agent`
only : List ResolvedPublicAgent → Option ResolvedPublicAgent
only (r ∷ []) = some r
only _ = none

unfoldable pub resolve_agent : String → PublicAction ResolvedPublicAgent
unfolding only
resolve_agent agent_id = do
  rows ← gets (λ s.
      let c = s.platform.catalog in
      joined_agents c (keep (λ a. str_eq a.agent_key agent_id && is_published c a) c.agents))
  require (only rows) agent_not_published

-- `_create_principal`
abbrev pub web_principal : ResolvedPublicAgent → PublicPrincipal
web_principal r = record {
  kind = published_web;
  workspace_id = r.agent.workspace_id;
  project_id = r.agent.project_id;
  agent_id = r.agent.agent_key;
  scopes = "runs:create" ∷ [];
  key_id = none;
  run_id = none;
}

principal_for : PublicConfig → ResolvedPublicAgent → Option String → PublicAction PublicPrincipal
principal_for config r none = pure (web_principal r)
principal_for config r (some raw) = do
  principal ← authenticate_api_key config raw r.agent.agent_key "runs:create"
  guard
      (principal.workspace_id == r.agent.workspace_id && principal.project_id == r.agent.project_id)
      authentication_required
  pure principal

unfoldable pub create_principal :
    PublicConfig → ResolvedPublicAgent → Option String → PublicAction PublicPrincipal
unfolding principal_for
create_principal config r authorization = do
  raw ← lift (bearer config.library authorization)
  principal_for config r raw
