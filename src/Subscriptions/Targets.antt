-- ===== src/Subscriptions/Targets.antt =====
-- The targets that the control API accepts, and those that the dispatcher sends to.
use universal_agent_studio.Prelude.{
  ℕ, ◌≡◌, refl, String, str_mem, Bool, true, false, ◌&&◌, Option, none, some, List, [], ◌∷◌, map,
  Bool-cases, inl, inr, ok, err, arith, Result,
}
use universal_agent_studio.Catalog.{Agent, Tenant, find_agent}
use universal_agent_studio.Webhooks.{Subscription}
use universal_agent_studio.Dispatcher.{
  SplitUrl, UrlError, origin, origin_at, with_port, origin_allowed, rstrip_slash, ◌<>◌,
}
use universal_agent_studio.RunService.{Platform}
use universal_agent_studio.Subscriptions.{
  SubscriptionError, WebhookCreateRequest, acceptable, among, target_accepted, add_port, host_text,
  listed, create_webhook, events_known, validate_webhook_target,
}

module _ (o : String) where
  allowed_listed :
      (allowed : List String)
      → origin_allowed (some o) allowed ≡ str_mem o (map rstrip_slash allowed)
  unfolding origin_allowed
  allowed_listed [] = refl
  allowed_listed (a ∷ rest) = ground (arith, allowed_listed rest)

-- The dispatcher sends to this origin: it raises for a malformed URL.
abbrev pub sends_to : List String → Result UrlError (Option String) → Bool
sends_to allowed (err e) = false
sends_to allowed (ok o) = origin_allowed o allowed

disallowed : (allowed : List String) → origin_allowed none allowed ≡ false
unfolding origin_allowed
disallowed allowed = refl

same_port :
    (allowed : List String) (base : String) (port : Option (Option String))
    → sends_to allowed (with_port base port) ≡ among allowed (add_port base port)
same_port allowed base none = refl
same_port allowed base (some none) = allowed_listed base allowed
same_port allowed base (some (some port)) = allowed_listed (base <> ":" <> port) allowed

listed_allowed :
    (parsed : SplitUrl) (allowed : List String) (host : Option String)
    → sends_to allowed (origin_at parsed host) ≡ listed allowed parsed host
listed_allowed parsed allowed none = disallowed allowed
listed_allowed parsed allowed (some host) =
    same_port allowed (parsed.scheme <> "://" <> host_text host) parsed.port

-- The two checks of an origin agree.
targets_agree :
    (split : Option SplitUrl) (allowed : List String)
    → sends_to allowed (origin split) ≡ target_accepted allowed split
unfolding origin
targets_agree none allowed = refl
targets_agree (some parsed) allowed = elim (Bool-cases (acceptable parsed)) [
  | inl fine ↦ ground (arith, fine, listed_allowed parsed allowed parsed.hostname)
  | inr refused ↦ ground (arith, refused, disallowed allowed)
]

abbrev pub succeeded : Result SubscriptionError Subscription → Bool
succeeded (ok s) = true
succeeded (err e) = false

-- A subscription for a known agent is created exactly when its events are known ones and the
-- dispatcher, with the same list of origins, sends to its target, which may be one of HTTP where the
-- list has such an origin.
pub create_webhook-succeeded :
    (urlsplit : String → Option SplitUrl) (allowed : List String) (t : Tenant) (agent_key : String)
    (body : WebhookCreateRequest) (fresh signing_key_id : ℕ) (p : Platform) (agent : Agent)
    → find_agent t agent_key p.catalog ≡ some agent
    → succeeded (create_webhook urlsplit allowed t agent_key body fresh signing_key_id p).0
      ≡ (events_known body.events && sends_to allowed (origin (urlsplit body.target_url)))
unfolding create_webhook validate_webhook_target
create_webhook-succeeded urlsplit allowed t agent_key body fresh signing_key_id p agent known =
    ground (arith, known, targets_agree (urlsplit body.target_url) allowed)
