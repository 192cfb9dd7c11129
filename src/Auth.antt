-- ===== src/Auth.antt =====
-- apps/control-api/src/universal_agent_studio_api/auth: service.py, and store.py over the tables
-- owners and sessions. The hashes of the libraries are a record of functions; a raw token that
-- `secrets` draws is an argument of the operation that draws it. Times are seconds.
pub mod Ended
pub mod Revocation
use universal_agent_studio.Prelude.{
  ℕ, ◌+◌, ◌==◌, leb, String, str_eq, if◌then◌else◌, Bool, true, false, ◌&&◌, ◌||◌, not, is_some,
  Option, none, some, List, [], ◌∷◌, any, find, keep, update, Exec, pure, raise, gets, modify,
  guard, require, ◌>>=◌, ◌>>◌,
}

pub record Owner : Type 0 where
  pub id : ℕ
  pub workspace_id : ℕ
  pub project_id : ℕ
  pub login_name : String
  pub password_hash : String
  pub preferred_locale : String

pub record Session : Type 0 where
  pub id : ℕ
  pub workspace_id : ℕ
  pub project_id : ℕ
  pub owner_id : ℕ
  pub token_hash : String
  pub csrf_token_hash : String
  pub expires_at : ℕ
  pub revoked_at : Option ℕ

pub record AuthTables : Type 0 where
  pub owners : List Owner
  pub sessions : List Session

pub data AuthError : Type 0 where
  authentication_failed csrf_validation_failed bootstrap_already_completed : AuthError
  confirmation_mismatch session_not_found : AuthError

abbrev pub AuthAction : Type 0 → Type 0
AuthAction A = Exec AuthError AuthTables A

-- `hashlib`, `hmac` and argon2; `verify` gives none where it raises.
pub record Hashing : Type 0 where
  pub sha256 : String → String
  pub hmac : String → String → String
  pub hash_password : String → String
  pub verify : String → String → Option Bool

pub record AuthConfig : Type 0 where
  pub hashing : Hashing
  pub session_hash_key : Option String
  pub dummy_password_hash : String
  pub session_ttl_seconds : ℕ

-- `_hash_token`
abbrev hash_with : Hashing → Option String → String → String
hash_with hashing none value = hashing.sha256 value
hash_with hashing (some key) value = hashing.hmac key value

unfoldable pub hash_token : AuthConfig → String → String
hash_token config value = hash_with config.hashing config.session_hash_key value

-- `_password_matches`
abbrev or_false : Option Bool → Bool
or_false none = false
or_false (some b) = b

unfoldable pub password_matches : AuthConfig → String → String → Bool
password_matches config password_hash password =
    or_false (config.hashing.verify password_hash password)

pub record AuthenticatedOwner : Type 0 where
  pub owner : Owner
  pub session : Session

pub record SessionMaterial : Type 0 where
  pub owner : Owner
  pub session : Session
  pub raw_session_token : String
  pub raw_csrf_token : String

-- What `secrets` and `uuid4` draw for a new session.
pub record Drawn : Type 0 where
  pub session_id : ℕ
  pub session_token : String
  pub csrf_token : String

abbrev pub new_session_row : AuthConfig → ℕ → Drawn → Owner → Session
new_session_row config now drawn owner = record {
  id = drawn.session_id;
  workspace_id = owner.workspace_id;
  project_id = owner.project_id;
  owner_id = owner.id;
  token_hash = hash_token config drawn.session_token;
  csrf_token_hash = hash_token config drawn.csrf_token;
  expires_at = now + config.session_ttl_seconds;
  revoked_at = none;
}

-- `_new_session`, with `SqlAuthStore.create_session`
unfoldable pub new_session : AuthConfig → ℕ → Drawn → Owner → AuthAction SessionMaterial
new_session config now drawn owner = do
  let row = new_session_row config now drawn owner
  modify (λ db. record db { sessions = row ∷ db.sessions })
  pure (record {
    owner = owner;
    session = row;
    raw_session_token = drawn.session_token;
    raw_csrf_token = drawn.csrf_token;
  })

-- The identifiers that the bootstrap draws.
pub record Founded : Type 0 where
  pub workspace_id : ℕ
  pub project_id : ℕ
  pub owner_id : ℕ

abbrev new_owner : AuthConfig → Founded → String → String → String → Owner
new_owner config founded login_name password locale = record {
  id = founded.owner_id;
  workspace_id = founded.workspace_id;
  project_id = founded.project_id;
  login_name = login_name;
  password_hash = config.hashing.hash_password password;
  preferred_locale = locale;
}

abbrev has_owner : AuthTables → Bool
has_owner db = any (λ o. true) db.owners

-- `bootstrap`, with `SqlAuthStore.bootstrap_owner`
unfoldable pub bootstrap :
    AuthConfig → ℕ → Founded → Drawn → String → String → String → AuthAction SessionMaterial
unfolding new_session
bootstrap config now founded drawn login_name password locale = do
  taken ← gets has_owner
  guard (not taken) bootstrap_already_completed
  let owner = new_owner config founded login_name password locale
  modify (λ db. record db { owners = owner ∷ db.owners })
  new_session config now drawn owner

-- `owner_by_login`
unfoldable pub owner_by_login : String → AuthTables → Option Owner
owner_by_login login_name db = find (λ o. str_eq login_name o.login_name) db.owners

-- The row of `session_with_owner`: the session of the hash, joined with its owner.
abbrev pub has_hash : String → Session → Bool
has_hash token_hash s = str_eq token_hash s.token_hash

abbrev joined : Session → Option Owner → Option AuthenticatedOwner
joined s none = none
joined s (some o) = some (record { owner = o; session = s })

unfoldable pub session_with_owner : String → AuthTables → Option AuthenticatedOwner
session_with_owner token_hash db = elim (find (has_hash token_hash) db.sessions) [
  | none ↦ none
  | some s ↦ joined s (find (λ o. s.owner_id == o.id) db.owners)
]

-- `if required: raise …; return None`
abbrev pub refuse : Bool → AuthAction (Option AuthenticatedOwner)
refuse true = raise authentication_failed
refuse false = pure none

abbrev pub is_live : ℕ → Session → Bool
is_live now s = not (is_some s.revoked_at || leb s.expires_at now)

check_live : ℕ → Bool → Option AuthenticatedOwner → AuthAction (Option AuthenticatedOwner)
check_live now required none = refuse required
check_live now required (some a) = if is_live now a.session then pure (some a) else refuse required

-- `authenticate`
unfoldable pub authenticate :
    AuthConfig → ℕ → Option String → Bool → AuthAction (Option AuthenticatedOwner)
unfolding check_live
authenticate config now none required = refuse required
authenticate config now (some raw) required = do
  found ← gets (session_with_owner (hash_token config raw))
  check_live now required found

-- `SqlAuthStore.revoke_session`
abbrev pub revoked : ℕ → Session → Session
revoked at s = if is_some s.revoked_at then s else record s { revoked_at = some at }

unfoldable pub revoke_session : ℕ → ℕ → AuthTables → AuthTables
revoke_session id at db = record db { sessions = update (λ s. id == s.id) (revoked at) db.sessions }

revoke_current : ℕ → Option AuthenticatedOwner → AuthAction (Unit {0})
revoke_current now none = pure tt
revoke_current now (some a) = modify (revoke_session a.session.id now)

abbrev password_hash_of : AuthConfig → Option Owner → String
password_hash_of config none = config.dummy_password_hash
password_hash_of config (some o) = o.password_hash

-- `login`, once the password is checked
unfoldable pub log_in_owner :
    AuthConfig → ℕ → Drawn → Option String → Owner → AuthAction SessionMaterial
unfolding revoke_current new_session
log_in_owner config now drawn current_token owner = do
  current ← authenticate config now current_token false
  revoke_current now current
  new_session config now drawn owner

-- `login`; without a current token there is nothing to authenticate.
unfoldable pub login :
    AuthConfig → ℕ → Drawn → String → String → Option String → AuthAction SessionMaterial
login config now drawn login_name password current_token = do
  found ← gets (owner_by_login login_name)
  guard (is_some found && password_matches config (password_hash_of config found) password)
      authentication_failed
  owner ← require found authentication_failed
  log_in_owner config now drawn current_token owner

-- `rotate_csrf`, with `SqlAuthStore.update_session_csrf`
unfoldable pub rotate_csrf : AuthConfig → String → AuthenticatedOwner → AuthAction String
rotate_csrf config drawn a = do
  found ← gets (λ db. find (λ s. a.session.id == s.id) db.sessions)
  row ← require found session_not_found
  modify (λ db. record db {
    sessions =
        update (λ s. a.session.id == s.id)
          (λ s. record s { csrf_token_hash = hash_token config drawn }) db.sessions;
  })
  guard (not (is_some row.revoked_at)) authentication_failed
  pure drawn

-- `require_csrf`
abbrev csrf_matches : AuthConfig → Session → Option String → Bool
csrf_matches config s none = false
csrf_matches config s (some raw) = str_eq s.csrf_token_hash (hash_token config raw)

unfoldable pub require_csrf :
    AuthConfig → AuthenticatedOwner → Option String → AuthAction (Unit {0})
require_csrf config a raw = guard (csrf_matches config a.session raw) csrf_validation_failed

-- `logout`
unfoldable pub logout : ℕ → AuthenticatedOwner → AuthAction (Unit {0})
logout now a = modify (revoke_session a.session.id now)

-- `SqlAuthStore.delete_workspace`; the foreign keys delete the rows of the workspace with it.
unfoldable pub delete_rows : ℕ → AuthTables → AuthTables
delete_rows workspace_id db = record {
  owners = keep (λ o. not (workspace_id == o.workspace_id)) db.owners;
  sessions = keep (λ s. not (workspace_id == s.workspace_id)) db.sessions;
}

-- `delete_workspace`
unfoldable pub delete_workspace :
    AuthConfig → AuthenticatedOwner → String → String → AuthAction (Unit {0})
unfolding delete_rows
delete_workspace config a current_password confirmation = do
  guard (str_eq confirmation "DELETE LOCAL WORKSPACE") confirmation_mismatch
  guard (password_matches config a.owner.password_hash current_password) authentication_failed
  modify (delete_rows a.owner.workspace_id)
