-- ===== src/Public/Reading.antt =====
-- publishing/public_service.py: who may read a run and its events, and what is shown of a run. `json` values of
-- the answer that only repeat the request are left out.
use Prim.Native.Char.{Char, code}
use universal_agent_studio.Prelude.{
  ℕ, ◌==◌, String, str_eq, str_mem, remove_prefix, if◌then◌else◌, Bool, false, ◌&&◌, is_some,
  Option, none, some, pure, lift, guard, require, ◌>>=◌, ◌>>◌,
}
use universal_agent_studio.Json.{Json}
use universal_agent_studio.Catalog.{Tenant}
use universal_agent_studio.Credentials.{Library, PublicPrincipal, verify_run_capability}
use universal_agent_studio.Runs.{RunStatus, completed, failed, cancelled}
use universal_agent_studio.RunService.{StoredRun}
use universal_agent_studio.RunService.Requests.{Outside, get_run}
use universal_agent_studio.Public.{
  PublicAction, PublicConfig, authentication_required, insufficient_scope, run_not_found,
  authenticate_api_key, bearer, with_service,
}

by_capability : String → Option PublicPrincipal → PublicAction PublicPrincipal
by_capability required_scope found = do
  principal ← require found authentication_required
  guard (str_mem required_scope principal.scopes) insufficient_scope
  pure principal

-- `raw.startswith("uascap_")`
abbrev pub is_capability : String → Bool
is_capability raw = is_some (remove_prefix "uascap_" raw)

-- `_read_principal`, for the credential that `_bearer` gives.
unfoldable pub principal_of :
    PublicConfig → String → ℕ → String → String → PublicAction PublicPrincipal
unfolding by_capability
principal_of config agent_id run_id required_scope raw =
    if is_capability raw
    then by_capability required_scope (
        verify_run_capability config.library config.capability_master raw agent_id run_id
          config.now)
    else authenticate_api_key config raw agent_id required_scope

-- `_read_principal`
unfoldable pub read_principal :
    PublicConfig → String → ℕ → Option String → String → PublicAction PublicPrincipal
read_principal config agent_id run_id authorization required_scope = do
  credential ← lift (bearer config.library authorization)
  raw ← require credential authentication_required
  principal_of config agent_id run_id required_scope raw

-- `_scope`
abbrev pub scope_of : PublicPrincipal → Tenant
scope_of p = record { workspace_id = p.workspace_id; project_id = p.project_id }

-- `rpartition("-v")`: the parts before and behind its last occurrence.
abbrev pub behind_mark : Char → String → Option String
behind_mark c String.[] = none
behind_mark c (String.◌∷◌ d s) = if code c == b'-' && code d == b'v' then some s else none

abbrev pub at_mark : Option String → Option (String × String)
at_mark none = none
at_mark (some s) = some (String.[], s)

unfoldable pub rpartition_version : String → Option (String × String)
rpartition_version String.[] = none
rpartition_version (String.◌∷◌ c s) = elim (rpartition_version s) [
  | some (before, behind) ↦ some (String.◌∷◌ c before, behind)
  | none ↦ at_mark (behind_mark c s)
]

-- `_run_belongs_to_agent`
abbrev pub is_version_of : Library → String → Option (String × String) → Bool
is_version_of lib agent_id none = false
is_version_of lib agent_id (some (version_agent, number)) =
    lib.isdigit number && str_eq version_agent agent_id

unfoldable pub belongs_to_agent : Library → StoredRun → String → Bool
belongs_to_agent lib run agent_id =
    is_version_of lib agent_id (rpartition_version run.agent_version_id)

-- `_view`
pub record PublicRunView : Type 0 where
  pub run_id : ℕ
  pub agent_id : String
  pub agent_version_id : String
  pub agent_version_digest : String
  pub status : RunStatus
  pub locale : String
  pub output : Option Json
  pub error_code : Option String
  pub run_capability : Option String

abbrev pub shown_output : RunStatus → Option Json → Option Json
shown_output completed output = output
shown_output _ output = none

abbrev pub shown_error : RunStatus → Option String
shown_error failed = some "invocation_unavailable"
shown_error cancelled = some "run_cancelled"
shown_error _ = none

abbrev pub public_view : String → Option String → StoredRun → PublicRunView
public_view agent_id capability run = record {
  run_id = run.id;
  agent_id = agent_id;
  agent_version_id = run.agent_version_id;
  agent_version_digest = run.agent_version_digest;
  status = run.status;
  locale = run.locale;
  output = shown_output run.status run.output;
  error_code = shown_error run.status;
  run_capability = capability;
}

-- The start of `get_run`, `authorize_events` and `stream_events`.
unfoldable pub authorized_run :
    PublicConfig → Outside → String → ℕ → Option String → String → PublicAction StoredRun
authorized_run config o agent_id run_id authorization required_scope = do
  principal ← read_principal config agent_id run_id authorization required_scope
  run ← with_service (get_run o (scope_of principal) run_id)
  guard (belongs_to_agent config.library run agent_id) run_not_found
  pure run

-- `get_run`
unfoldable pub get_public_run :
    PublicConfig → Outside → String → ℕ → Option String → PublicAction PublicRunView
get_public_run config o agent_id run_id authorization = do
  run ← authorized_run config o agent_id run_id authorization "runs:read"
  pure (public_view agent_id none run)

-- `authorize_events`
unfoldable pub authorize_events :
    PublicConfig → Outside → String → ℕ → Option String → PublicAction (Unit {0})
authorize_events config o agent_id run_id authorization = do
  authorized_run config o agent_id run_id authorization "events:read"
  pure tt
