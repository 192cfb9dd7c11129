-- ===== src/Tests/Auth.antt =====
-- Sessions at concrete tables.
use universal_agent_studio.Prelude.{
  ◌≡◌, ◌≢◌, refl, none, some, true, str_eq, [], ◌∷◌, eq_iff, arith,
}
use universal_agent_studio.Auth.{
  AuthConfig, AuthTables, AuthenticatedOwner, Drawn, Owner, Session, authenticate, hash_token,
  logout, refuse,
}
use universal_agent_studio.Auth.Revocation.{
  logs_in, rotates, Operation, perform, here, next, Continues, logout-authenticate,
}

abbrev config : AuthConfig
config = record {
  hashing = record {
    sha256 = λ s. s;
    hmac = λ k s. s;
    hash_password = λ s. s;
    verify = λ h s. some (str_eq h s);
  };
  session_hash_key = none;
  dummy_password_hash = "dummy";
  session_ttl_seconds = 100;
}

abbrev owner : Owner
owner = record {
  id = 3;
  workspace_id = 1;
  project_id = 10;
  login_name = "ada";
  password_hash = "secret";
  preferred_locale = "en";
}

abbrev session : Session
session = record {
  id = 4;
  workspace_id = 1;
  project_id = 10;
  owner_id = 3;
  token_hash = "first";
  csrf_token_hash = "csrf";
  expires_at = 1000;
  revoked_at = none;
}

abbrev tables : AuthTables
tables = record { owners = owner ∷ []; sessions = session ∷ [] }

abbrev ada : AuthenticatedOwner
ada = record { owner = owner; session = session }

abbrev drawn : Drawn
drawn = record { session_id = 5; session_token = "second"; csrf_token = "other" }

abbrev logged_out : AuthTables
logged_out = (logout 7 ada tables).1

abbrev again : Operation
again = logs_in 8 drawn "ada" "secret" (some "first")

abbrev later : AuthTables
later = perform config (rotates "third" ada) (perform config again logged_out)

first_ne_second : "first" ≢ hash_token config drawn.session_token
unfolding hash_token
first_ne_second = ground (arith, eq_iff "first" "second")

first_token : hash_token config "first" ≡ "first"
unfolding hash_token
first_token = refl

run : Continues config (hash_token config "first") logged_out later
unfolding hash_token
run = next (rotates "third" ada) (next again here first_ne_second) tt

logout-authenticate_example : authenticate config 9 (some "first") true later ≡ refuse true later
unfolding hash_token
logout-authenticate_example = logout-authenticate config "first" ada 7 tables later refl run 9 true
