-- ===== src/Tests/Visitors.antt =====
-- A visitor without a key who creates a run of a published agent.
use universal_agent_studio.Prelude.{
  ℕ, ◌≡◌, refl, String, str_eq, true, Option, none, some, [], ◌∷◌, ok, arith,
}
use universal_agent_studio.Json.{Json, Fields, obj, str, int, pos, get, field, end}
use universal_agent_studio.Catalog.{Catalog, PublicationKind}
use universal_agent_studio.Runs.{queued, create_idempotent, find_request, find_run}
use universal_agent_studio.RunService.{
  persist_idempotent, set_durable_execution_id, stored, get_stored,
}
use universal_agent_studio.RunService.Requests.{
  create_resolved_run, run_created, start_durable, get_run,
}
use universal_agent_studio.Credentials.{
  Bytes, Library, capability_fields, issue_run_capability, require_master_key,
}
use universal_agent_studio.Credentials.Capabilities.{IsReliable, granted}
use universal_agent_studio.Public.{PublicConfig, PublicState, bearer}
use universal_agent_studio.Public.Creating.{
  ResolvedPublicAgent, create_principal, joined_agents, resolve_agent,
}
use universal_agent_studio.Public.Reading.{PublicRunView, principal_of}
use universal_agent_studio.Public.Requested.{
  Naming, PublicRunCreateRequest, answer_run, create_public_run, request_name,
}
use universal_agent_studio.Public.Requested.Visitors.{ReadsBack, create_public_run-principal_of}
use universal_agent_studio.Tests.Samples.{catalog}
use universal_agent_studio.Tests.RunService.{drawing, outside, platform}
use universal_agent_studio.Tests.Public.{
  strokes, encode, decode, first, bytes, decode-encode, lacks-encode, first-strokes,
}

abbrev or_zero : Option ℕ → ℕ
or_zero none = 0
or_zero (some n) = n

abbrev number : Option Json → ℕ
number (some (str s)) = or_zero (first (decode 0 s))
number (some (int (pos n))) = n
number _ = 0

abbrev numbers : Json → Bytes
numbers (obj fs) =
    number (get "w" fs) ∷ number (get "p" fs) ∷ number (get "r" fs) ∷ number (get "exp" fs) ∷ []
numbers _ = []

abbrev library_with : (Bytes → Option Json) → Library
library_with loads = record {
  mac = λ key payload. key;
  key_mac = λ key raw. "hash";
  compare_digest = λ a b. true;
  b64encode = encode;
  b64decode = decode 0;
  dumps = numbers;
  loads = loads;
  text = λ j. "";
  parse_int = λ s. none;
  uuid_text = λ n. strokes n String.[];
  parse_uuid = λ s. first (decode 0 s);
  lower = λ s. s;
  isdigit = λ s. str_eq s "1";
}

abbrev fields : ℕ → ℕ → ℕ → ℕ → Fields
fields w p r e = capability_fields (library_with (λ b. none)) w p "calculator-agent" r e

abbrev read_back : Bytes → Option Json
read_back (w ∷ p ∷ r ∷ e ∷ []) = some (obj (fields w p r e))
read_back _ = none

abbrev library : Library
library = library_with read_back

reliable : IsReliable library
reliable = record {
  decodes = decode-encode;
  dotless = lacks-encode;
  same = λ b. refl;
  parses = first-strokes;
}

loaded :
    (w p r e : ℕ)
    → library.loads (library.dumps (obj (fields w p r e))) ≡ some (obj (fields w p r e))
unfolding get
loaded w p r e = rw (first-strokes w, first-strokes p, first-strokes r) refl

back : ReadsBack library "calculator-agent"
back = record { document = fields; loaded = loaded; kept = λ w p r e k. refl }

abbrev config : PublicConfig
config = record {
  library = library;
  api_key_hash_master = bytes 32;
  capability_master = bytes 32;
  now = 400;
}

abbrev published : Catalog
published = record catalog {
  publications =
      record {
        id = 31;
        workspace_id = 1;
        project_id = 10;
        agent_id = 5;
        event_type = PublicationKind.publish;
        previous_version_id = none;
        selected_version_id = 8;
        selected_version_digest = "d0";
      }
      ∷ [];
}

abbrev state : PublicState
state = record { platform = record platform { catalog = published }; keys = [] }

abbrev naming : Naming
naming = record {
  of_key = λ key_id key. record { durable_key = key; request_id = key_id };
  drawn = record { durable_key = "web:1"; request_id = 60 };
  fresh_run_id = 70;
  capability_ttl_seconds = 100;
}

abbrev body : PublicRunCreateRequest
body = record { input = obj (field "question" (str "1 + 1") end); locale = "en-US" }

abbrev shown : Option String → PublicRunView
shown capability = record {
  run_id = 70;
  agent_id = "calculator-agent";
  agent_version_id = "calculator-agent-v1";
  agent_version_digest = "d0";
  status = queued;
  locale = "en-US";
  output = none;
  error_code = none;
  run_capability = capability;
}

abbrev token : Option String
token = issue_run_capability library (bytes 32) 1 10 "calculator-agent" 70 500

created :
    (create_public_run config outside drawing naming "calculator-agent" body none none state).0
    ≡ ok (shown token)
unfolding create_public_run create_principal bearer request_name answer_run resolve_agent
    joined_agents create_resolved_run run_created start_durable persist_idempotent
    set_durable_execution_id stored get_stored get_run create_idempotent find_request find_run
    issue_run_capability require_master_key
created = refl

create_public_run-principal_of_example :
    (r : ResolvedPublicAgent) × (raw : String) × ((resolve_agent "calculator-agent" state).0 ≡ ok r)
    × (token ≡ some raw)
    × (principal_of (record config { now = 450 }) "calculator-agent" 70 "events:read" raw state
        ≡ (ok (granted r.agent.workspace_id r.agent.project_id "calculator-agent" 70), state))
create_public_run-principal_of_example =
    create_public_run-principal_of config outside drawing naming "calculator-agent" body none state
      (shown token) reliable back created 450 "events:read" state (omega arith) refl
