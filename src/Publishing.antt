-- ===== src/Publishing.antt =====
-- libs/python/platform_store/src/universal_agent_platform_store/repositories/publishing.py:
-- publication and rollback. Each method is an action on the catalog; the advisory locks and row
-- locks make each one atomic, so they leave no trace in the model.
pub mod Cases
pub mod Routing
pub mod Atomic
pub mod Pointer
use universal_agent_studio.Prelude.{
  ℕ, ◌==◌, opt_eq, String, str_eq, if◌then◌else◌, Bool, true, false, ◌&&◌, not, Option, none, some,
  is_some, ◌∷◌, any, update, pure, require, gets, modify, guard, ◌>>=◌, ◌>>◌,
}
use universal_agent_studio.Json.{Json, item}
use universal_agent_studio.Catalog.{
  Agent, AgentVersion, AgentDraft, ActiveVersion, PublicationKind, publish, rollback as rolled_back,
  is_publish, PublicationEvent, Catalog, agent_not_found, agent_draft_not_found,
  agent_version_not_found, agent_draft_revision_conflict, active_version_changed,
  agent_spec_invalid, public_agent_id_conflict, key_error, Action, Tenant, active_of, event_of,
  find_agent, find_draft, find_active, find_digest, find_version, next_number, current_version,
}

pub record PublicationResult : Type 0 where
  pub version : AgentVersion
  pub previous_version_id : Option ℕ
  pub event : Option PublicationEvent
  pub reused : Bool

-- `_lock_agent`
abbrev lock_agent : Tenant → String → Action Agent
lock_agent t agent_key = do found ← gets (find_agent t agent_key); require found agent_not_found

-- The query of `_claim_public_agent_key`: a publication of another agent, in whatever tenant, that
-- has this agent's key.
unfoldable pub claimed_by_other : Agent → Catalog → Bool
claimed_by_other agent db =
    any
      (λ e.
        any
          (λ a. a.id == e.agent_id && str_eq a.agent_key agent.agent_key && not (a.id == agent.id))
          db.agents)
      db.publications

abbrev claim_public_agent_key : Agent → Action (Unit {0})
claim_public_agent_key agent = do
  conflict ← gets (claimed_by_other agent)
  guard (not conflict) public_agent_id_conflict

-- `_locked_draft`
abbrev locked_draft : Tenant → ℕ → Action AgentDraft
locked_draft t id = do found ← gets (find_draft t id); require found agent_draft_not_found

-- `_check_active`
abbrev pub check_active : Option ActiveVersion → Option ℕ → Action (Option ℕ)
check_active active expected = do
  guard (opt_eq (current_version active) expected) active_version_changed
  pure (current_version active)

-- The version that carries the draft's digest, and whether it was there already. A new one raises
-- where the document has no `schema_version`.
unfoldable pub version_for_draft :
    Tenant → ℕ → AgentDraft → ℕ → Option AgentVersion → Action (AgentVersion × Bool)
version_for_draft t id draft fresh (some version) = pure (version, true)
version_for_draft t id draft fresh none = do
  number ← gets (next_number id)
  require (item "schema_version" draft.agent_spec) key_error
  let version : AgentVersion = record {
    id = fresh;
    workspace_id = t.workspace_id;
    project_id = t.project_id;
    agent_id = id;
    version_number = number;
    digest = draft.digest;
    agent_spec = draft.agent_spec;
  }
  modify (λ db. record db { versions = version ∷ db.versions })
  pure (version, false)

-- The traffic pointer: a new row, or the new `version_id` of the row that was locked.
unfoldable pub set_active : Tenant → ℕ → ℕ → Option ActiveVersion → Catalog → Catalog
set_active t id version_id none db = record db {
  actives =
      record {
        agent_id = id;
        workspace_id = t.workspace_id;
        project_id = t.project_id;
        version_id = version_id;
      }
      ∷ db.actives;
}
set_active t id version_id (some _) db = record db {
  actives = update (active_of t id) (λ a. record a { version_id = version_id }) db.actives;
}

abbrev pub publication :
    Tenant → ℕ → ℕ → PublicationKind → Option ℕ → AgentVersion → PublicationEvent
publication t id fresh kind previous version = record {
  id = fresh;
  workspace_id = t.workspace_id;
  project_id = t.project_id;
  agent_id = id;
  event_type = kind;
  previous_version_id = previous;
  selected_version_id = version.id;
  selected_version_digest = version.digest;
}

abbrev append_publication : PublicationEvent → Catalog → Catalog
append_publication e db = record db { publications = e ∷ db.publications }

-- `existing_publication is not None`
abbrev pub has_publish : Tenant → ℕ → Catalog → Bool
has_publish t id db = any (λ e. event_of t id e && is_publish e.event_type) db.publications

-- The end of `publish_draft`, once the version is chosen.
unfoldable pub select_version :
    Tenant
    → ℕ
    → ℕ
    → Option ActiveVersion
    → Option ℕ
    → AgentVersion
    → Bool
    → Action PublicationResult
unfolding set_active
select_version t id fresh active previous version reused = do
  published ← gets (has_publish t id)
  let already_active = opt_eq previous (some version.id)
  let event = publication t id fresh publish previous version
  let kept : PublicationResult = record {
    version = version;
    previous_version_id = previous;
    event = none;
    reused = true;
  }
  let made : PublicationResult = record {
    version = version;
    previous_version_id = previous;
    event = some event;
    reused = reused;
  }
  if already_active && published then pure kept else do
    modify (λ db. if already_active then db else set_active t id version.id active db)
    modify (append_publication event)
    pure made

-- `validate_draft is not None and not validate_draft(…)`, negated
abbrev pub accepts : Option (Json → String → Bool) → AgentDraft → Bool
accepts none draft = true
accepts (some validate_draft) draft = validate_draft draft.agent_spec draft.digest

pub record PublishArguments : Type 0 where
  pub agent_key : String
  pub expected_revision : ℕ
  pub expected_active_version_id : Option ℕ
  pub fresh_version_id : ℕ
  pub fresh_event_id : ℕ

-- The second half of `publish_draft`, from the locked traffic pointer on.
unfoldable pub publish_version :
    Tenant → ℕ → AgentDraft → PublishArguments → Action PublicationResult
unfolding version_for_draft select_version
publish_version t id draft args = do
  active ← gets (find_active t id)
  previous ← check_active active args.expected_active_version_id
  found ← gets (find_digest t id draft.digest)
  chosen ← version_for_draft t id draft args.fresh_version_id found
  select_version t id args.fresh_event_id active previous chosen.0 chosen.1

-- `PublishingRepository.publish_draft`
unfoldable pub publish_draft :
    Tenant → Option (Json → String → Bool) → PublishArguments → Action PublicationResult
publish_draft t validate_draft args = do
  agent ← lock_agent t args.agent_key
  draft ← locked_draft t agent.id
  guard (draft.revision == args.expected_revision) agent_draft_revision_conflict
  guard (accepts validate_draft draft) agent_spec_invalid
  claim_public_agent_key agent
  publish_version t agent.id draft args

pub record RollbackArguments : Type 0 where
  pub agent_key : String
  pub target_version_id : ℕ
  pub expected_active_version_id : ℕ
  pub fresh_event_id : ℕ

-- The end of `rollback`, once the target is found.
unfoldable pub roll_back_to :
    Tenant → ℕ → ℕ → Option ActiveVersion → Option ℕ → AgentVersion → Action PublicationResult
unfolding set_active
roll_back_to t id fresh active previous target = do
  let event = publication t id fresh rolled_back previous target
  let kept : PublicationResult = record {
    version = target;
    previous_version_id = previous;
    event = none;
    reused = true;
  }
  let made : PublicationResult = record {
    version = target;
    previous_version_id = previous;
    event = some event;
    reused = true;
  }
  if opt_eq previous (some target.id) then pure kept else do
    modify (set_active t id target.id active)
    modify (append_publication event)
    pure made

-- `rollback`, from the locked traffic pointer on.
unfoldable pub rollback_version : Tenant → ℕ → RollbackArguments → Action PublicationResult
rollback_version t id args = do
  active ← gets (find_active t id)
  previous ← check_active active (some args.expected_active_version_id)
  guard (is_some active) active_version_changed
  found ← gets (find_version t id args.target_version_id)
  target ← require found agent_version_not_found
  roll_back_to t id args.fresh_event_id active previous target

-- `PublishingRepository.rollback`
unfoldable pub rollback : Tenant → RollbackArguments → Action PublicationResult
rollback t args = do agent ← lock_agent t args.agent_key; rollback_version t agent.id args
