-- ===== src/Catalog.antt =====
-- libs/python/platform_store/src/universal_agent_platform_store: the rows of models.py that the
-- agent, draft and publishing repositories share, scope.py, and the queries that several of them
-- make. A table is the list of its rows, the newest first. Identifiers are numbers; a fresh
-- `uuid4()` is an argument of the operation that draws it. Columns that no operation reads back
-- (metadata, provenance, the acting owner, the timestamps of creation and update) are left out.
use universal_agent_studio.Prelude.{
  ℕ, ◌==◌, max, ◌+◌, String, str_eq, if◌then◌else◌, Bool, true, false, ◌&&◌, not, Option, none,
  some, is_some, List, [], ◌∷◌, find, Exec, Result, ok, err,
}
use universal_agent_studio.Json.{Json}

pub record Agent : Type 0 where
  pub id : ℕ
  pub workspace_id : ℕ
  pub project_id : ℕ
  pub agent_key : String

pub record AgentVersion : Type 0 where
  pub id : ℕ
  pub workspace_id : ℕ
  pub project_id : ℕ
  pub agent_id : ℕ
  pub version_number : ℕ
  pub digest : String
  pub agent_spec : Json

pub record AgentDraft : Type 0 where
  pub id : ℕ
  pub workspace_id : ℕ
  pub project_id : ℕ
  pub agent_id : ℕ
  pub base_version_id : ℕ
  pub revision : ℕ
  pub digest : String
  pub agent_spec : Json
  pub layout : Json

pub record ActiveVersion : Type 0 where
  pub agent_id : ℕ
  pub workspace_id : ℕ
  pub project_id : ℕ
  pub version_id : ℕ

pub data PublicationKind : Type 0 where
  publish rollback : PublicationKind

abbrev pub is_publish : PublicationKind → Bool
is_publish publish = true
is_publish rollback = false

pub record PublicationEvent : Type 0 where
  pub id : ℕ
  pub workspace_id : ℕ
  pub project_id : ℕ
  pub agent_id : ℕ
  pub event_type : PublicationKind
  pub previous_version_id : Option ℕ
  pub selected_version_id : ℕ
  pub selected_version_digest : String

pub record Catalog : Type 0 where
  pub agents : List Agent
  pub versions : List AgentVersion
  pub drafts : List AgentDraft
  pub actives : List ActiveVersion
  pub publications : List PublicationEvent

-- What the repositories raise, by the message of the exception.
pub data StoreError : Type 0 where
  agent_not_found agent_draft_not_found agent_version_not_found : StoreError
  agent_draft_revision_conflict active_version_changed agent_version_not_active : StoreError
  agent_spec_invalid public_agent_id_conflict published_agent_requires_publish : StoreError
  key_error : StoreError  -- the exception of a key that a document lacks

abbrev pub Action : Type 0 → Type 0
Action A = Exec StoreError Catalog A

-- `RequestScope` of scope.py.
pub record RequestScope : Type 0 where
  pub workspace_id : Option ℕ
  pub project_id : Option ℕ
  pub is_administrative : Bool
  pub reason : Option String

pub data ScopeError : Type 0 where
  workspace_and_project_scope_required invalid_administrative_scope tenant_scope_required :
      ScopeError

abbrev is_blank : Option String → Bool
is_blank none = true
is_blank (some text) = str_eq text ""

-- `RequestScope.__post_init__`
unfoldable pub new_scope :
    Option ℕ → Option ℕ → Bool → Option String → Result ScopeError RequestScope
new_scope workspace_id project_id is_administrative reason =
    let has_tenant = is_some workspace_id && is_some project_id in
    let has_partial_tenant =
      if is_some workspace_id then not (is_some project_id) else is_some project_id in
    let made : Result ScopeError RequestScope = ok (record {
      workspace_id = workspace_id;
      project_id = project_id;
      is_administrative = is_administrative;
      reason = reason;
    }) in
    if has_partial_tenant
    then err workspace_and_project_scope_required
    else if is_administrative
    then (if (if has_tenant then true else is_blank reason)
        then err invalid_administrative_scope
        else made)
    else if has_tenant
    then made
    else err workspace_and_project_scope_required

-- The pair that `RequestScope.tenant_ids` returns.
pub record Tenant : Type 0 where
  pub workspace_id : ℕ
  pub project_id : ℕ

unfoldable pub tenant_ids : RequestScope → Result ScopeError Tenant
tenant_ids scope = elim scope.workspace_id [
  | none ↦ err tenant_scope_required
  | some w ↦ elim scope.project_id [
    | none ↦ err tenant_scope_required
    | some p ↦ ok (record { workspace_id = w; project_id = p })
  ]
]

-- `.where(T.workspace_id == …, T.project_id == …)`
abbrev pub in_tenant : Tenant → ℕ → ℕ → Bool
in_tenant t w p = t.workspace_id == w && t.project_id == p

-- … `T.agent_id == …` besides.
abbrev pub of_agent : Tenant → ℕ → ℕ → ℕ → ℕ → Bool
of_agent t id w p agent_id = in_tenant t w p && id == agent_id

abbrev pub named : Tenant → String → Agent → Bool
named t key a = in_tenant t a.workspace_id a.project_id && str_eq key a.agent_key

abbrev pub draft_of : Tenant → ℕ → AgentDraft → Bool
draft_of t id d = of_agent t id d.workspace_id d.project_id d.agent_id

abbrev pub active_of : Tenant → ℕ → ActiveVersion → Bool
active_of t id a = of_agent t id a.workspace_id a.project_id a.agent_id

abbrev pub event_of : Tenant → ℕ → PublicationEvent → Bool
event_of t id e = of_agent t id e.workspace_id e.project_id e.agent_id

abbrev pub version_of : Tenant → ℕ → AgentVersion → Bool
version_of t id v = of_agent t id v.workspace_id v.project_id v.agent_id

unfoldable pub find_agent : Tenant → String → Catalog → Option Agent
find_agent t key db = find (named t key) db.agents

unfoldable pub find_draft : Tenant → ℕ → Catalog → Option AgentDraft
find_draft t id db = find (draft_of t id) db.drafts

unfoldable pub find_active : Tenant → ℕ → Catalog → Option ActiveVersion
find_active t id db = find (active_of t id) db.actives

-- `AgentVersion.digest == digest`, within the agent
unfoldable pub find_digest : Tenant → ℕ → String → Catalog → Option AgentVersion
find_digest t id digest db = find (λ v. version_of t id v && str_eq digest v.digest) db.versions

-- `AgentVersion.id == version_id`, within the agent
unfoldable pub find_version : Tenant → ℕ → ℕ → Catalog → Option AgentVersion
find_version t id version_id db = find (λ v. version_of t id v && version_id == v.id) db.versions

-- `coalesce(max(AgentVersion.version_number), 0)` over `AgentVersion.agent_id == id`
unfoldable pub max_number : ℕ → List AgentVersion → ℕ
max_number id [] = 0
max_number id (v ∷ vs) =
    let rest = max_number id vs in if id == v.agent_id then max v.version_number rest else rest

-- `active.version_id if active is not None else None`
abbrev pub current_version : Option ActiveVersion → Option ℕ
current_version none = none
current_version (some a) = some a.version_id

-- `int(next_number or 1)`: the number is never 0.
abbrev pub next_number : ℕ → Catalog → ℕ
next_number id db = max_number id db.versions + 1
