-- ===== src/Drafts.antt =====
-- libs/python/platform_store/src/universal_agent_platform_store/repositories/drafts.py: the one
-- mutable draft of an agent, with its revision.
pub mod Revisions
use universal_agent_studio.Prelude.{
  ℕ, ◌==◌, ◌+◌, String, Bool, true, false, ◌&&◌, Option, none, some, ◌∷◌, find, update, pure,
  require, gets, modify, guard, ◌>>=◌, ◌>>◌,
}
use universal_agent_studio.Json.{Json}
use universal_agent_studio.Catalog.{
  AgentVersion, AgentDraft, Catalog, agent_draft_not_found, agent_draft_revision_conflict,
  agent_version_not_active, Action, Tenant, draft_of, version_of, find_agent, find_draft,
  find_active,
}

-- The join of `agent_active_versions` with `agent_versions`.
unfoldable pub active_version : Tenant → ℕ → Catalog → Option AgentVersion
active_version t id db = elim (find_active t id db) [
  | none ↦ none
  | some a ↦ find (λ v. version_of t id v && a.version_id == v.id) db.versions
]

new_draft : Tenant → ℕ → ℕ → Json → AgentVersion → AgentDraft
new_draft t id fresh layout version = record {
  id = fresh;
  workspace_id = t.workspace_id;
  project_id = t.project_id;
  agent_id = id;
  base_version_id = version.id;
  revision = 1;
  digest = version.digest;
  agent_spec = version.agent_spec;
  layout = layout;
}

draft_from_active : Tenant → ℕ → ℕ → Json → Option AgentDraft → Action (AgentDraft × Bool)
unfolding new_draft
draft_from_active t id fresh layout (some existing) = pure (existing, false)
draft_from_active t id fresh layout none = do
  found ← gets (active_version t id)
  version ← require found agent_version_not_active
  let draft = new_draft t id fresh layout version
  modify (λ db. record db { drafts = draft ∷ db.drafts })
  pure (draft, true)

-- `DraftRepository.create_from_active`
unfoldable pub create_from_active : Tenant → String → Json → ℕ → Action (AgentDraft × Bool)
unfolding draft_from_active
create_from_active t agent_key layout fresh = do
  known ← gets (find_agent t agent_key)
  agent ← require known agent_version_not_active
  existing ← gets (find_draft t agent.id)
  draft_from_active t agent.id fresh layout existing

-- `DraftRepository.get`
unfoldable pub get_draft : Tenant → String → Catalog → Option AgentDraft
get_draft t agent_key db = elim (find_agent t agent_key db) [
  | none ↦ none
  | some agent ↦ find_draft t agent.id db
]

pub record UpdateArguments : Type 0 where
  pub agent_key : String
  pub expected_revision : ℕ
  pub agent_spec : Json
  pub digest : String
  pub layout : Json

abbrev pub revised : UpdateArguments → AgentDraft → AgentDraft
revised args d = record d {
  agent_spec = args.agent_spec;
  digest = args.digest;
  layout = args.layout;
  revision = d.revision + 1;
}

-- `DraftRepository.update`
unfoldable pub update_draft : Tenant → UpdateArguments → Action AgentDraft
update_draft t args = do
  known ← gets (find_agent t args.agent_key)
  agent ← require known agent_draft_not_found
  found ← gets (find_draft t agent.id)
  draft ← require found agent_draft_not_found
  guard (draft.revision == args.expected_revision) agent_draft_revision_conflict
  modify (λ db. record db { drafts = update (draft_of t agent.id) (revised args) db.drafts })
  pure (revised args draft)
