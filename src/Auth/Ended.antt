-- ===== src/Auth/Ended.antt =====
-- auth/service.py and auth/store.py: sessions that are revoked, under each operation that mutates.
use universal_agent_studio.Prelude.{
  ℕ, ◌==◌, ◌≡◌, ◌≢◌, refl, String, eq_iff, Bool, true, ◌||◌, not, is_some, Option, some, List, [],
  ◌∷◌, all, find, keep, update, arith,
}
use universal_agent_studio.Auth.{
  AuthConfig, AuthTables, AuthenticatedOwner, Drawn, Founded, Owner, Session, bootstrap,
  delete_workspace, has_hash, hash_token, login, logout, new_session, revoke_session, revoked,
  rotate_csrf,
}

pub data Operation : Type 0 where
  bootstraps : (now : ℕ) → Founded → Drawn → (login_name password locale : String) → Operation
  logs_in : (now : ℕ) → Drawn → (login_name password : String) → Option String → Operation
  rotates : (csrf_token : String) → AuthenticatedOwner → Operation
  logs_out : (now : ℕ) → AuthenticatedOwner → Operation
  deletes : AuthenticatedOwner → (password confirmation : String) → Operation

-- Each call of the store commits by itself, so that what is done before an error stays.
unfoldable pub perform : AuthConfig → Operation → AuthTables → AuthTables
perform config (bootstraps now founded drawn login_name password locale) db =
    (bootstrap config now founded drawn login_name password locale db).1
perform config (logs_in now drawn login_name password current) db =
    (login config now drawn login_name password current db).1
perform config (rotates csrf_token a) db = (rotate_csrf config csrf_token a db).1
perform config (logs_out now a) db = (logout now a db).1
perform config (deletes a password confirmation) db =
    (delete_workspace config a password confirmation db).1

-- An operation that does not draw a token with the given hash again.
abbrev pub IsFresh : AuthConfig → String → Operation → Type 0
IsFresh config h (bootstraps now founded drawn login_name password locale) =
    h ≢ hash_token config drawn.session_token
IsFresh config h (logs_in now drawn login_name password current) =
    h ≢ hash_token config drawn.session_token
IsFresh config h _ = Unit

pub data Continues (config : AuthConfig) (h : String) (db : AuthTables) : AuthTables → Type 0 where
  here : Continues config h db db
  next :
      {later : AuthTables} (op : Operation)
      → Continues config h db later
      → IsFresh config h op
      → Continues config h db (perform config op later)

-- Every session with the hash is revoked.
abbrev pub dead : String → Session → Bool
dead h s = not (has_hash h s) || is_some s.revoked_at

abbrev pub IsDead : String → AuthTables → Type 0
IsDead h db = all (dead h) db.sessions ≡ true

module _ (h : String) where
  pub all-dead-revoked :
      (p : Session → Bool) (at : ℕ) (xs : List Session)
      → all (dead h) xs ≡ true
      → all (dead h) (update p (revoked at) xs) ≡ true
  all-dead-revoked p at [] k = refl
  all-dead-revoked p at (s ∷ xs) k = ground (arith, all-dead-revoked p at xs)

  all-dead-keep :
      (p : Session → Bool) (xs : List Session)
      → all (dead h) xs ≡ true
      → all (dead h) (keep p xs) ≡ true
  all-dead-keep p [] k = refl
  all-dead-keep p (s ∷ xs) k = ground (arith, all-dead-keep p xs)

  all-dead-csrf :
      (p : Session → Bool) (csrf : String) (xs : List Session)
      → all (dead h) xs ≡ true
      → all (dead h) (update p (λ s. record s { csrf_token_hash = csrf }) xs) ≡ true
  all-dead-csrf p csrf [] k = refl
  all-dead-csrf p csrf (s ∷ xs) k = ground (arith, all-dead-csrf p csrf xs)

  -- A logout revokes the row of the session; where it is the only one of the hash, all of them.
  pub all-dead-logout :
      (id at : ℕ) (xs : List Session)
      → all (λ s. not (has_hash h s) || id == s.id) xs ≡ true
      → all (dead h) (update (λ s. id == s.id) (revoked at) xs) ≡ true
  all-dead-logout id at [] k = refl
  all-dead-logout id at (s ∷ xs) k = ground (arith, all-dead-logout id at xs)

  pub find-dead :
      (xs : List Session) {s : Session}
      → all (dead h) xs ≡ true
      → find (has_hash h) xs ≡ some s
      → is_some s.revoked_at ≡ true
  find-dead [] k f = cc
  find-dead (x ∷ xs) {s} k f = ground (arith, find-dead xs {s = s})

module _ (config : AuthConfig) (h : String) (db : AuthTables) (dies : IsDead h db) where
  pub new_session-IsDead :
      (now : ℕ) (drawn : Drawn) (owner : Owner)
      → h ≢ hash_token config drawn.session_token
      → IsDead h (new_session config now drawn owner db).1
  unfolding new_session
  new_session-IsDead now drawn owner fresh =
      ground (arith, dies, eq_iff h (hash_token config drawn.session_token))

  pub bootstrap-IsDead :
      (now : ℕ) (founded : Founded) (drawn : Drawn) (login_name password locale : String)
      → h ≢ hash_token config drawn.session_token
      → IsDead h (bootstrap config now founded drawn login_name password locale db).1
  unfolding bootstrap
  bootstrap-IsDead now founded drawn login_name password locale fresh =
      ground (arith, dies, eq_iff h (hash_token config drawn.session_token))

  pub rotate_csrf-IsDead :
      (csrf_token : String) (a : AuthenticatedOwner)
      → IsDead h (rotate_csrf config csrf_token a db).1
  unfolding rotate_csrf
  rotate_csrf-IsDead csrf_token a = ground (
    arith,
    dies,
    all-dead-csrf h (λ s. a.session.id == s.id) (hash_token config csrf_token) db.sessions,
  )

  pub logout-IsDead : (now : ℕ) (a : AuthenticatedOwner) → IsDead h (logout now a db).1
  unfolding logout revoke_session
  logout-IsDead now a = all-dead-revoked h (λ s. a.session.id == s.id) now db.sessions dies

  pub delete_workspace-IsDead :
      (a : AuthenticatedOwner) (password confirmation : String)
      → IsDead h (delete_workspace config a password confirmation db).1
  unfolding delete_workspace
  delete_workspace-IsDead a password confirmation =
      ground (
        arith,
        dies,
        all-dead-keep h (λ s. not (a.owner.workspace_id == s.workspace_id)) db.sessions,
      )
