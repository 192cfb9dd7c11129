-- ===== src/Auth/Revocation.antt =====
-- Sessions after their revocation, under any later operations.
use universal_agent_studio.Prelude.{
  Bool-cases, Option-cases, ℕ, ◌==◌, ◌≡◌, ◌≢◌, refl, inl, inr, String, Bool, true, false, ◌||◌, not,
  is_some, Option, none, some, ok, all, find, ◌>>◌, arith,
}
use universal_agent_studio.Auth.{
  AuthConfig, AuthTables, AuthenticatedOwner, Drawn, Founded, Owner, is_live, owner_by_login,
  password_matches, authenticate, bootstrap, delete_workspace, has_hash, hash_token, revoke_current,
  log_in_owner, login, logout, new_session, refuse, revoke_session, rotate_csrf, session_with_owner,
}
use universal_agent_studio.Auth.Ended.{
  all-dead-revoked, all-dead-logout, find-dead, new_session-IsDead, bootstrap-IsDead,
  rotate_csrf-IsDead, logout-IsDead, delete_workspace-IsDead, IsDead,
}

pub data Operation : Type 0 where
  bootstraps : (now : ℕ) → Founded → Drawn → (login_name password locale : String) → Operation
  logs_in : (now : ℕ) → Drawn → (login_name password : String) → Option String → Operation
  rotates : (csrf_token : String) → AuthenticatedOwner → Operation
  logs_out : (now : ℕ) → AuthenticatedOwner → Operation
  deletes : AuthenticatedOwner → (password confirmation : String) → Operation

-- Each call of the store commits by itself, so that what is done before an error stays.
unfoldable pub perform : AuthConfig → Operation → AuthTables → AuthTables
perform config (bootstraps now founded drawn login_name password locale) db =
    (bootstrap config now founded drawn login_name password locale db).1
perform config (logs_in now drawn login_name password current) db =
    (login config now drawn login_name password current db).1
perform config (rotates csrf_token a) db = (rotate_csrf config csrf_token a db).1
perform config (logs_out now a) db = (logout now a db).1
perform config (deletes a password confirmation) db =
    (delete_workspace config a password confirmation db).1

-- An operation that does not draw a token with the given hash again.
abbrev pub IsFresh : AuthConfig → String → Operation → Type 0
IsFresh config h (bootstraps now founded drawn login_name password locale) =
    h ≢ hash_token config drawn.session_token
IsFresh config h (logs_in now drawn login_name password current) =
    h ≢ hash_token config drawn.session_token
IsFresh config h _ = Unit

pub data Continues (config : AuthConfig) (h : String) (db : AuthTables) : AuthTables → Type 0 where
  here : Continues config h db db
  next :
      {later : AuthTables} (op : Operation)
      → Continues config h db later
      → IsFresh config h op
      → Continues config h db (perform config op later)

-- An authentication that is not required always gives an answer, and changes nothing.
authenticate_optional :
    (config : AuthConfig) (now : ℕ) (raw : Option String) (db : AuthTables)
    → (found : Option AuthenticatedOwner) × (authenticate config now raw false db ≡ (ok found, db))
unfolding authenticate
authenticate_optional config now none db = (none, refl)
authenticate_optional config now (some raw) db =
    elim (Option-cases (session_with_owner (hash_token config raw) db)) [
      | inl missing ↦ (none, rw (missing) refl)
      | inr (a, found) ↦ elim (Bool-cases (is_live now a.session)) [
        | inl live ↦ (some a, rw (found, live) refl)
        | inr over ↦ (none, rw (found, over) refl)
      ]
    ]

-- What `log_in_owner` does once the current session is known.
replace-IsDead :
    (config : AuthConfig) (h : String) (db : AuthTables) (dies : IsDead h db) (now : ℕ)
    (drawn : Drawn) (owner : Owner) (fresh : h ≢ hash_token config drawn.session_token)
    (current : Option AuthenticatedOwner)
    → IsDead h ((revoke_current now current >> new_session config now drawn owner) db).1
unfolding revoke_current revoke_session
replace-IsDead config h db dies now drawn owner fresh none =
    new_session-IsDead config h db dies now drawn owner fresh
replace-IsDead config h db dies now drawn owner fresh (some a) =
    new_session-IsDead config h (revoke_session a.session.id now db)
      (all-dead-revoked h (λ s. a.session.id == s.id) now db.sessions dies) now drawn owner fresh

log_in_owner-IsDead :
    (config : AuthConfig) (h : String) (db : AuthTables)
    → IsDead h db
    → (now : ℕ) (drawn : Drawn) (current : Option String) (owner : Owner)
    → h ≢ hash_token config drawn.session_token
    → IsDead h (log_in_owner config now drawn current owner db).1
unfolding log_in_owner
log_in_owner-IsDead config h db dies now drawn current owner fresh =
    let (found, e) = authenticate_optional config now current db in
    rw (e) (replace-IsDead config h db dies now drawn owner fresh found)

login-IsDead :
    (config : AuthConfig) (h : String) (db : AuthTables)
    → IsDead h db
    → (now : ℕ) (drawn : Drawn) (login_name password : String) (current : Option String)
    → h ≢ hash_token config drawn.session_token
    → IsDead h (login config now drawn login_name password current db).1
unfolding login
login-IsDead config h db dies now drawn login_name password current fresh =
    elim (Option-cases (owner_by_login login_name db)) [
      | inl unknown ↦ rw (unknown) dies
      | inr (owner, known) ↦
          elim (Bool-cases (password_matches config owner.password_hash password)) [
            | inl matches ↦
                rw (known, matches)
                  (log_in_owner-IsDead config h db dies now drawn current owner fresh)
            | inr wrong ↦ rw (known, wrong) dies
          ]
    ]

perform-IsDead :
    (config : AuthConfig) (h : String) (op : Operation) (db : AuthTables)
    → IsFresh config h op
    → IsDead h db
    → IsDead h (perform config op db)
unfolding perform
perform-IsDead config h (bootstraps now founded drawn login_name password locale) db fresh dies =
    bootstrap-IsDead config h db dies now founded drawn login_name password locale fresh
perform-IsDead config h (logs_in now drawn login_name password current) db fresh dies =
    login-IsDead config h db dies now drawn login_name password current fresh
perform-IsDead config h (rotates csrf_token a) db fresh dies =
    rotate_csrf-IsDead config h db dies csrf_token a
perform-IsDead config h (logs_out now a) db fresh dies = logout-IsDead config h db dies now a
perform-IsDead config h (deletes a password confirmation) db fresh dies =
    delete_workspace-IsDead config h db dies a password confirmation

Continues-IsDead :
    (config : AuthConfig) (h : String) {db later : AuthTables}
    → IsDead h db
    → Continues config h db later
    → IsDead h later
Continues-IsDead config h dies here = dies
Continues-IsDead config h dies (next {later = later} op run fresh) =
    perform-IsDead config h op later fresh (Continues-IsDead config h dies run)

-- The row of a dead hash, if there is one, is revoked.
session_with_owner-IsDead :
    (h : String) (db : AuthTables) {a : AuthenticatedOwner}
    → IsDead h db
    → session_with_owner h db ≡ some a
    → is_some a.session.revoked_at ≡ true
unfolding session_with_owner
session_with_owner-IsDead h db {a} dies e = elim (Option-cases (find (has_hash h) db.sessions)) [
  | inl missing ↦ ground (arith, missing, e)
  | inr (s, found) ↦
      let over : is_some s.revoked_at ≡ true = find-dead h db.sessions dies found in
      elim (Option-cases (find (λ o. s.owner_id == o.id) db.owners)) [
        | inl orphan ↦ ground (arith, found, orphan, e)
        | inr (o, owned) ↦ ground (arith, found, owned, over, e)
      ]
]

refused_when_dead :
    (config : AuthConfig) (raw : String) (db : AuthTables) (at : ℕ) (required : Bool)
    → IsDead (hash_token config raw) db
    → authenticate config at (some raw) required db ≡ refuse required db
unfolding authenticate
refused_when_dead config raw db at required dies =
    elim (Option-cases (session_with_owner (hash_token config raw) db)) [
      | inl missing ↦ rw (missing) refl
      | inr (a, found) ↦
          rw (found, session_with_owner-IsDead (hash_token config raw) db dies found) refl
    ]

-- After a logout the token of the session is refused for good: whatever operations follow, in
-- whatever order, and at whatever time, as long as none of them draws a token of the same hash.
-- Hashes of tokens are unique among the sessions at the time of the logout.
pub logout-authenticate :
    (config : AuthConfig) (raw : String) (a : AuthenticatedOwner) (now : ℕ) (db later : AuthTables)
    → all (λ s. not (has_hash (hash_token config raw) s) || a.session.id == s.id) db.sessions ≡ true
    → Continues config (hash_token config raw) (logout now a db).1 later
    → (at : ℕ) (required : Bool)
    → authenticate config at (some raw) required later ≡ refuse required later
unfolding logout revoke_session
logout-authenticate config raw a now db later unique run at required =
    refused_when_dead config raw later at required (
      Continues-IsDead config (hash_token config raw)
        (all-dead-logout (hash_token config raw) a.session.id now db.sessions unique) run)
