-- ===== src/Subscriptions.antt =====
-- apps/control-api/src/universal_agent_studio_api/publishing/service.py: `validate_webhook_target` and
-- the webhook methods of PublishingService, with WebhookRepository of store/repositories/webhooks.py.
-- Labels and the secret that is derived from the signing key are left out.
pub mod Targets
use universal_agent_studio.Prelude.{
  ℕ, ◌==◌, String, str_eq, str_mem, Bool, true, false, ◌&&◌, ◌||◌, not, is_some, if◌then◌else◌,
  Option, none, some, List, [], ◌∷◌, map, all, find, keep, Exec, pure, require, gets, modify, guard,
  ◌>>=◌, ◌>>◌,
}
use universal_agent_studio.Catalog.{Agent, Tenant, find_agent, in_tenant}
use universal_agent_studio.Webhooks.{Outbox, Subscription, revoke}
use universal_agent_studio.Dispatcher.{SplitUrl, ◌<>◌, has_colon, opens_bracket, rstrip_slash}
use universal_agent_studio.RunService.{Platform}

pub data SubscriptionError : Type 0 where
  invalid_webhook_event webhook_origin_not_allowed agent_not_found webhook_not_found :
      SubscriptionError

abbrev pub SubscriptionAction : Type 0 → Type 0
SubscriptionAction A = Exec SubscriptionError Platform A

-- `host`, put into brackets if it is an address of IPv6
abbrev pub host_text : String → String
host_text host = if has_colon host && not (opens_bracket host) then "[" <> host <> "]" else host

-- none where the port cannot be read
abbrev pub add_port : String → Option (Option String) → Option String
add_port origin none = none
add_port origin (some none) = some origin
add_port origin (some (some port)) = some (origin <> ":" <> port)

abbrev pub acceptable : SplitUrl → Bool
acceptable parsed =
    str_mem parsed.scheme ("http" ∷ "https" ∷ [])
    && (not (is_some parsed.username)
        && (not (is_some parsed.password) && str_eq parsed.fragment ""))

abbrev pub among : List String → Option String → Bool
among allowed_origins none = false
among allowed_origins (some origin) = str_mem origin (map rstrip_slash allowed_origins)

abbrev pub listed : List String → SplitUrl → Option String → Bool
listed allowed_origins parsed none = false
listed allowed_origins parsed (some host) =
    among allowed_origins (add_port (parsed.scheme <> "://" <> host_text host) parsed.port)

abbrev pub target_accepted : List String → Option SplitUrl → Bool
target_accepted allowed_origins none = false
target_accepted allowed_origins (some parsed) =
    acceptable parsed && listed allowed_origins parsed parsed.hostname

-- `validate_webhook_target`: none where it raises, as `urlsplit` does of a malformed URL.
unfoldable pub validate_webhook_target :
    (String → Option SplitUrl) → List String → String → Option String
unfolding ◌<>◌ has_colon rstrip_slash
validate_webhook_target urlsplit allowed_origins target_url =
    if target_accepted allowed_origins (urlsplit target_url) then some target_url else none

abbrev pub known_events : List String
known_events = "run.completed" ∷ "run.failed" ∷ "run.cancelled" ∷ []

abbrev pub events_known : List String → Bool
events_known [] = false
events_known (e ∷ es) = all (λ x. str_mem x known_events) (e ∷ es)

pub record WebhookCreateRequest : Type 0 where
  pub target_url : String
  pub events : List String

abbrev pub new_subscription : Tenant → Agent → String → List String → ℕ → ℕ → Subscription
new_subscription t agent target_url events fresh signing_key_id = record {
  id = fresh;
  workspace_id = t.workspace_id;
  project_id = t.project_id;
  agent_id = agent.id;
  target_url = target_url;
  events = events;
  signing_key_id = signing_key_id;
  revoked_at = none;
}

abbrev agent_of_webhook : Tenant → String → SubscriptionAction Agent
agent_of_webhook t agent_key = do
  found ← gets (λ p. find_agent t agent_key p.catalog)
  require found agent_not_found

-- `create_webhook`
unfoldable pub create_webhook :
    (String → Option SplitUrl)
    → List String
    → Tenant
    → String
    → WebhookCreateRequest
    → (fresh signing_key_id : ℕ) → SubscriptionAction Subscription
create_webhook urlsplit allowed_origins t agent_key body fresh signing_key_id = do
  guard (events_known body.events) invalid_webhook_event
  target_url ←
      require (validate_webhook_target urlsplit allowed_origins body.target_url)
        webhook_origin_not_allowed
  agent ← agent_of_webhook t agent_key
  let row = new_subscription t agent target_url body.events fresh signing_key_id
  modify
      (λ p. record p { outbox = record p.outbox { subscriptions = row ∷ p.outbox.subscriptions } })
  pure row

abbrev of_agent : Tenant → ℕ → Subscription → Bool
of_agent t agent_id s = in_tenant t s.workspace_id s.project_id && agent_id == s.agent_id

-- `list_webhooks`
unfoldable pub list_webhooks : Tenant → String → SubscriptionAction (List Subscription)
list_webhooks t agent_key = do
  agent ← agent_of_webhook t agent_key
  gets (λ p. keep (of_agent t agent.id) p.outbox.subscriptions)

-- `revoke_webhook`
unfoldable pub revoke_webhook : Tenant → String → ℕ → ℕ → SubscriptionAction (Unit {0})
revoke_webhook t agent_key subscription_id now = do
  agent ← agent_of_webhook t agent_key
  found ←
      gets
        (λ p. find (λ s. subscription_id == s.id && of_agent t agent.id s) p.outbox.subscriptions)
  require found webhook_not_found
  modify (λ p. record p {
    outbox = record p.outbox {
      subscriptions = revoke t agent.id subscription_id now p.outbox.subscriptions;
    };
  })
