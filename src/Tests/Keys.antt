-- ===== src/Tests/Keys.antt =====
-- A key that is created and used.
use universal_agent_studio.Prelude.{◌≡◌, refl, some, ok, [], ◌∷◌}
use universal_agent_studio.Catalog.{find_agent}
use universal_agent_studio.Credentials.{require_master_key}
use universal_agent_studio.Public.{authenticate_api_key}
use universal_agent_studio.Public.Keys.{ApiKeyCreateRequest, DrawnKey, create_api_key, raw_key}
use universal_agent_studio.Public.Keys.Issued.{
  IsHex, create_api_key-authenticate_api_key, principal,
}
use universal_agent_studio.Tests.Public.{config, library, state}
use universal_agent_studio.Tests.Samples.{calculator, catalog, home}

abbrev body : ApiKeyCreateRequest
body = record { scopes = "runs:create" ∷ "events:read" ∷ []; expires_at = some 900 }

abbrev drawn : DrawnKey
drawn = record { key_id = 12; prefix = "fedcba9876543210"; secret = 3 ∷ 1 ∷ [] }

hex : IsHex drawn
hex = record { sixteen = refl; plain = refl }

made :
    (create_api_key config home "calculator-agent" body drawn state).0 ≡ ok (raw_key library drawn)
unfolding create_api_key find_agent require_master_key
made = refl

known : find_agent home "calculator-agent" catalog ≡ some calculator
unfolding find_agent
known = refl

create_api_key-authenticate_api_key_example :
    (authenticate_api_key
      (record config { now = 600 })
      (raw_key library drawn)
      "calculator-agent"
      "events:read"
      (create_api_key config home "calculator-agent" body drawn state).1).0
    ≡ ok (principal home "calculator-agent" body drawn)
create_api_key-authenticate_api_key_example =
    create_api_key-authenticate_api_key config home "calculator-agent" body drawn state
      (raw_key library drawn) calculator hex made known refl 600 "events:read" refl refl
