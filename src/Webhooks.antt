-- ===== src/Webhooks.antt =====
-- libs/python/platform_store/src/universal_agent_platform_store/repositories/webhooks.py: the
-- outbox. A terminal trace enqueues one delivery for each live subscription of the agent that asks
-- for the event. Times are microseconds.
pub mod Enqueueing
use universal_agent_studio.Prelude.{
  ℕ, ◌==◌, String, str_eq, str_mem, if◌then◌else◌, Bool, true, false, ◌&&◌, not, is_some, Option,
  none, some, List, [], ◌∷◌, find, keep, update, Exec, pure, raise,
}
use universal_agent_studio.Json.{Json}
use universal_agent_studio.Catalog.{Tenant, in_tenant, Agent, AgentVersion}

pub data DeliveryState : Type 0 where
  pending delivering delivered failed cancelled : DeliveryState

pub record Subscription : Type 0 where
  pub id : ℕ
  pub workspace_id : ℕ
  pub project_id : ℕ
  pub agent_id : ℕ
  pub target_url : String
  pub events : List String
  pub signing_key_id : ℕ
  pub revoked_at : Option ℕ

-- The payload of a delivery, but for the identifier of the delivery that is put into it.
pub record Payload : Type 0 where
  pub agent_key : String
  pub version_number : ℕ
  pub version_digest : String
  pub run_id : ℕ
  pub event_type : String
  pub status : String
  pub result : Option Json
  pub error_code : Option String
  pub occurred_at : Json

pub record Delivery : Type 0 where
  pub id : ℕ
  pub workspace_id : ℕ
  pub project_id : ℕ
  pub subscription_id : ℕ
  pub run_id : ℕ
  pub event_sequence : ℕ
  pub event_type : String
  pub payload : Payload
  pub state : DeliveryState
  pub attempt_count : ℕ
  pub next_attempt_at : ℕ
  pub last_status_code : Option ℕ
  pub last_error : Option String
  pub delivered_at : Option ℕ

pub record Outbox : Type 0 where
  pub subscriptions : List Subscription
  pub deliveries : List Delivery

pub data WebhookError : Type 0 where
  agent_not_found run_not_found terminal_trace_event_missing : WebhookError

abbrev pub OutboxAction : Type 0 → Type 0
OutboxAction A = Exec WebhookError Outbox A

-- The row of the same subscription, run and event.
abbrev pub delivers : ℕ → ℕ → ℕ → Delivery → Bool
delivers subscription_id run_id sequence d =
    subscription_id == d.subscription_id && (run_id == d.run_id && sequence == d.event_sequence)

abbrev pub new_delivery : Subscription → ℕ → ℕ → ℕ → ℕ → String → Payload → Delivery
new_delivery s fresh now run_id sequence event_type payload = record {
  id = fresh;
  workspace_id = s.workspace_id;
  project_id = s.project_id;
  subscription_id = s.id;
  run_id = run_id;
  event_sequence = sequence;
  event_type = event_type;
  payload = payload;
  state = pending;
  attempt_count = 0;
  next_attempt_at = now;
  last_status_code = none;
  last_error = none;
  delivered_at = none;
}

-- `WebhookRepository.enqueue`, on the table of deliveries: the row, and the table after it.
pub record Enqueued : Type 0 where
  pub delivery : Delivery
  pub created : Bool
  pub deliveries : List Delivery

enqueue_for : Delivery → List Delivery → Option Delivery → Enqueued
enqueue_for fresh table (some existing) = record {
  delivery = existing;
  created = false;
  deliveries = table;
}
enqueue_for fresh table none = record {
  delivery = fresh;
  created = true;
  deliveries = fresh ∷ table;
}

unfoldable pub enqueue : Delivery → List Delivery → Enqueued
unfolding enqueue_for
enqueue fresh table =
    enqueue_for fresh table
      (find (delivers fresh.subscription_id fresh.run_id fresh.event_sequence) table)

-- An event of the trace, as far as the outbox reads it.
pub record TraceEvent : Type 0 where
  pub type : String
  pub sequence : ℕ
  pub occurred_at : Json

pub record Trace : Type 0 where
  pub events : List TraceEvent
  pub status : String
  pub output : Option Json  -- none where it is no object

abbrev pub is_terminal_type : String → Bool
is_terminal_type type = str_mem type ("run.completed" ∷ "run.failed" ∷ "run.cancelled" ∷ [])

-- `next(event for event in reversed(raw_events) if …)`
unfoldable pub last_terminal : List TraceEvent → Option TraceEvent
last_terminal [] = none
last_terminal (e ∷ es) = elim (last_terminal es) [
  | some later ↦ some later
  | none ↦ if is_terminal_type e.type then some e else none
]

unfoldable pub error_code : String → Option String
error_code event_type =
    if str_eq event_type "run.failed"
    then some "invocation_unavailable"
    else if str_eq event_type "run.cancelled"
    then some "run_cancelled"
    else none

-- What the join of runs, agent_versions and agents gives for the run.
pub record RunOwner : Type 0 where
  pub run_id : ℕ
  pub agent : Agent
  pub version : AgentVersion

unfoldable pub payload_of : RunOwner → Trace → TraceEvent → Payload
payload_of owner trace terminal = record {
  agent_key = owner.agent.agent_key;
  version_number = owner.version.version_number;
  version_digest = owner.version.digest;
  run_id = owner.run_id;
  event_type = terminal.type;
  status = trace.status;
  result = if str_eq terminal.type "run.completed" then trace.output else none;
  error_code = error_code terminal.type;
  occurred_at = terminal.occurred_at;
}

abbrev pub is_revoked : Subscription → Bool
is_revoked s = is_some s.revoked_at

-- `.where(…, WebhookSubscription.revoked_at.is_(None))`
abbrev pub live_for : Tenant → ℕ → Subscription → Bool
live_for t agent_id s =
    in_tenant t s.workspace_id s.project_id && (agent_id == s.agent_id && not (is_revoked s))

-- The loop over the subscriptions. `fresh` draws the identifier for a subscription.
unfoldable pub enqueue_each :
    (ℕ → ℕ) → ℕ → Payload → ℕ → List Subscription → List Delivery → List Delivery × List Delivery
enqueue_each fresh now payload sequence [] table = ([], table)
enqueue_each fresh now payload sequence (s ∷ ss) table =
    let row = new_delivery s (fresh s.id) now payload.run_id sequence payload.event_type payload in
    let done = enqueue row table in
    let wanted = str_mem payload.event_type s.events in
    let rest =
      enqueue_each fresh now payload sequence ss (if wanted then done.deliveries else table) in
    (if wanted then done.delivery ∷ rest.0 else rest.0, rest.1)

enqueue_event :
    Tenant → (ℕ → ℕ) → ℕ → RunOwner → Trace → Option TraceEvent → OutboxAction (List Delivery)
enqueue_event t fresh now owner trace none box = raise terminal_trace_event_missing box
enqueue_event t fresh now owner trace (some terminal) box =
    let chosen = keep (live_for t owner.agent.id) box.subscriptions in
    let (created, table) =
      enqueue_each fresh now (payload_of owner trace terminal) terminal.sequence chosen
        box.deliveries in
    pure created (record box { deliveries = table })

-- `WebhookRepository.enqueue_terminal`; the first argument is what the join finds for the run.
unfoldable pub enqueue_terminal :
    Option RunOwner → Tenant → (ℕ → ℕ) → ℕ → Trace → OutboxAction (List Delivery)
unfolding enqueue_event
enqueue_terminal none t fresh now trace = raise run_not_found
enqueue_terminal (some owner) t fresh now trace =
    enqueue_event t fresh now owner trace (last_terminal trace.events)

-- `WebhookRepository.revoke`, on the table of subscriptions.
unfoldable pub revoke : Tenant → ℕ → ℕ → ℕ → List Subscription → List Subscription
revoke t agent_id subscription_id now =
    update
      (λ s.
        subscription_id == s.id
        && (in_tenant t s.workspace_id s.project_id
            && (agent_id == s.agent_id && not (is_revoked s))))
      (λ s. record s { revoked_at = some now })
