-- ===== src/Public/Requested.antt =====
-- publishing/public_service.py, `create_run`: runs that are requested through the public API. The keys
-- that are derived from the idempotency key of a client are functions of a record; pydantic's check
-- of the request is left out.
pub mod Visitors
use universal_agent_studio.Prelude.{
  ℕ, ◌+◌, leb, length, codes, String, Bool, true, false, ◌&&◌, Option, none, some, pure, raise,
  require, guard, gets, ◌>>=◌, ◌>>◌,
}
use universal_agent_studio.Json.{Json}
use universal_agent_studio.Catalog.{Tenant}
use universal_agent_studio.Credentials.{
  PrincipalKind, PublicPrincipal, api_key, published_web, run_capability, issue_run_capability,
}
use universal_agent_studio.RunService.{StoredRun}
use universal_agent_studio.RunService.Failure.{Drawing}
use universal_agent_studio.RunService.Requests.{
  CreateRunRequest, Outside, StoredAgentVersion, create_resolved_run, get_run,
}
use universal_agent_studio.Public.{
  PublicAction, PublicConfig, PublicError, idempotency_key_required,
  publishing_master_key_too_short, with_service,
}
use universal_agent_studio.Public.Creating.{ResolvedPublicAgent, create_principal, resolve_agent}
use universal_agent_studio.Public.Reading.{PublicRunView, public_view}

pub record PublicRunCreateRequest : Type 0 where
  pub input : Json
  pub locale : String

-- What a request is known by.
pub record RequestName : Type 0 where
  pub durable_key : String
  pub request_id : ℕ

pub record Naming : Type 0 where
  pub of_key : ℕ → String → RequestName  -- f"api:…" and `uuid5(key_id, idempotency_key)`
  pub drawn : RequestName  -- f"web:…" and `uuid4()`
  pub fresh_run_id : ℕ
  pub capability_ttl_seconds : ℕ

abbrev long_enough : String → Bool
long_enough key = leb 16 (length (codes key)) && leb (length (codes key)) 128

name_with : Naming → Option ℕ → Option String → PublicAction RequestName
name_with naming (some key_id) (some key) = do
  guard (long_enough key) idempotency_key_required
  pure (naming.of_key key_id key)
name_with naming _ _ = raise idempotency_key_required

name_for : Naming → PublicPrincipal → PrincipalKind → Option String → PublicAction RequestName
unfolding name_with
name_for naming principal api_key idempotency_key =
    name_with naming principal.key_id idempotency_key
name_for naming principal _ idempotency_key = pure naming.drawn

unfoldable pub request_name : Naming → PublicPrincipal → Option String → PublicAction RequestName
unfolding name_for
request_name naming principal idempotency_key =
    name_for naming principal principal.kind idempotency_key

abbrev pub stored_version : Outside → ResolvedPublicAgent → StoredAgentVersion
stored_version o r = record {
  id = r.version.id;
  public_id = o.rendering.version_id r.agent.agent_key r.version.version_number;
  digest = r.version.digest;
  agent_spec = r.version.agent_spec;
}

abbrev pub tenant_of : ResolvedPublicAgent → Tenant
tenant_of r = record { workspace_id = r.agent.workspace_id; project_id = r.agent.project_id }

abbrev pub run_request :
    Outside → ResolvedPublicAgent → PublicRunCreateRequest → RequestName → CreateRunRequest
run_request o r body name = record {
  request_id = name.request_id;
  agent_version_id = (stored_version o r).public_id;
  agent_version_digest = r.version.digest;
  idempotency_key = name.durable_key;
  input = body.input;
  locale = body.locale;
}

-- The capability that a visitor without a key is given.
abbrev issued : Option String → PublicAction (Option String)
issued none = raise publishing_master_key_too_short
issued (some raw) = pure (some raw)

capability_for :
    PublicConfig
    → Naming
    → ResolvedPublicAgent
    → String
    → ℕ
    → PrincipalKind
    → PublicAction (Option String)
capability_for config naming r agent_id run_id published_web = issued (
    issue_run_capability config.library config.capability_master r.agent.workspace_id
      r.agent.project_id agent_id run_id (config.now + naming.capability_ttl_seconds))
capability_for config naming r agent_id run_id _ = pure none

-- `create_run`, from the stored run on.
unfoldable pub answer_run :
    PublicConfig
    → Naming
    → ResolvedPublicAgent
    → String
    → PublicPrincipal
    → StoredRun
    → PublicAction PublicRunView
unfolding capability_for
answer_run config naming r agent_id principal run = do
  capability ← capability_for config naming r agent_id run.id principal.kind
  pure (public_view agent_id capability run)

-- `create_run`
unfoldable pub create_public_run :
    PublicConfig
    → Outside
    → Drawing
    → Naming
    → String
    → PublicRunCreateRequest
    → Option String
    → Option String
    → PublicAction PublicRunView
create_public_run config o d naming agent_id body idempotency_key authorization = do
  r ← resolve_agent agent_id
  principal ← create_principal config r authorization
  name ← request_name naming principal idempotency_key
  created ← with_service (
      create_resolved_run o d (tenant_of r) naming.fresh_run_id (run_request o r body name)
        (stored_version o r))
  run ← with_service (get_run o (tenant_of r) created.run_id)
  answer_run config naming r agent_id principal run
