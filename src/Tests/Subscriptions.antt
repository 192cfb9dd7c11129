-- ===== src/Tests/Subscriptions.antt =====
-- A subscription whose target is on the list of origins.
use universal_agent_studio.Prelude.{String, Option, ◌&&◌, ◌≡◌, refl, some, none, List, [], ◌∷◌}
use universal_agent_studio.Catalog.{find_agent}
use universal_agent_studio.Dispatcher.{SplitUrl, origin}
use universal_agent_studio.Subscriptions.{
  WebhookCreateRequest, create_webhook, events_known, validate_webhook_target,
}
use universal_agent_studio.Subscriptions.Targets.{sends_to, succeeded, create_webhook-succeeded}
use universal_agent_studio.Tests.RunService.{platform}
use universal_agent_studio.Tests.Samples.{calculator, catalog, home}

abbrev split : String → Option SplitUrl
split url = some (record {
  scheme = "https";
  hostname = some "hooks.example";
  username = none;
  password = none;
  port = some (some "8443");
  fragment = "";
})

abbrev allowed : List String
allowed = "https://hooks.example:8443/" ∷ []

abbrev body : WebhookCreateRequest
body = record { target_url = "https://hooks.example:8443/in"; events = "run.failed" ∷ [] }

known : find_agent home "calculator-agent" catalog ≡ some calculator
unfolding find_agent
known = refl

create_webhook-succeeded_example :
    succeeded (create_webhook split allowed home "calculator-agent" body 40 41 platform).0
    ≡ (events_known body.events && sends_to allowed (origin (split body.target_url)))
create_webhook-succeeded_example =
    create_webhook-succeeded split allowed home "calculator-agent" body 40 41 platform calculator
      known

-- A target of plain HTTP is accepted where its origin is listed, and a malformed URL is not.
abbrev plain : String → Option SplitUrl
plain url = some (record {
  scheme = "http";
  hostname = some "hooks.example";
  username = none;
  password = none;
  port = some none;
  fragment = "";
})

plain_accepted :
    validate_webhook_target plain ("http://hooks.example" ∷ []) "http://hooks.example/in"
    ≡ some "http://hooks.example/in"
unfolding validate_webhook_target
plain_accepted = refl

malformed_refused :
    validate_webhook_target (λ url. none) ("http://hooks.example" ∷ []) "http://[" ≡ none
unfolding validate_webhook_target
malformed_refused = refl
