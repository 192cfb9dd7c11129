-- ===== src/Delivery.antt =====
-- workers/runtime/src/universal_agent_studio_runtime/webhooks/dispatcher.py, the class
-- SqlWebhookDeliveryStore: claims under a lease, and completion fenced by the attempt number. Times
-- are microseconds.
pub mod Fencing
pub mod Selection
pub mod Claims
use universal_agent_studio.Prelude.{
  ℕ, zero, suc, ◌+◌, ◌*◌, ◌==◌, ltb, leb, String, if◌then◌else◌, Bool, true, false, ◌&&◌, ◌||◌, not,
  Option, none, some, List, [], ◌∷◌, find, keep, update,
}
use universal_agent_studio.Webhooks.{
  Delivery, DeliveryState, Outbox, Payload, Subscription, pending, delivering, delivered, cancelled,
  is_revoked,
}

-- `timedelta(seconds=n)`
abbrev pub seconds : ℕ → ℕ
seconds n = n * 1000000

pub record Claim : Type 0 where
  pub id : ℕ
  pub target_url : String
  pub signing_key_id : ℕ
  pub payload : Payload
  pub attempt_count : ℕ

abbrev pub is_open : DeliveryState → Bool
is_open pending = true
is_open delivering = true
is_open _ = false

abbrev pub is_delivering : DeliveryState → Bool
is_delivering delivering = true
is_delivering _ = false

abbrev pub is_delivered : DeliveryState → Bool
is_delivered delivered = true
is_delivered _ = false

-- The `where` of `claim_due`; rows that another transaction has locked are skipped.
abbrev pub is_due : (ℕ → Bool) → ℕ → Delivery → Bool
is_due locked now d = is_open d.state && (leb d.next_attempt_at now && not (locked d.id))

-- `.order_by(next_attempt_at, id)`
abbrev pub before : Delivery → Delivery → Bool
before d e =
    ltb d.next_attempt_at e.next_attempt_at
    || d.next_attempt_at == e.next_attempt_at && leb d.id e.id

unfoldable pub insert_due : Delivery → List Delivery → List Delivery
insert_due d [] = d ∷ []
insert_due d (e ∷ es) = let later = e ∷ insert_due d es in if before d e then d ∷ e ∷ es else later

unfoldable pub order_due : List Delivery → List Delivery
unfolding insert_due
order_due [] = []
order_due (d ∷ ds) = insert_due d (order_due ds)

-- `.limit(n)`
unfoldable pub limit : ℕ → List Delivery → List Delivery
limit zero ds = []
limit (suc n) [] = []
limit (suc n) (d ∷ ds) = d ∷ limit n ds

-- `session.get(WebhookSubscription, id)`
abbrev pub subscription_of : Delivery → List Subscription → Option Subscription
subscription_of d = find (λ s. d.subscription_id == s.id)

-- `subscription is None or subscription.revoked_at is not None`, negated
abbrev pub live : Option Subscription → Option Subscription
live none = none
live (some s) = if is_revoked s then none else some s

abbrev pub dropped : Delivery → Delivery
dropped d = record d { state = cancelled; last_error = some "subscription_revoked" }

abbrev pub leased : ℕ → ℕ → Delivery → Delivery
leased lease now d = record d {
  state = delivering;
  attempt_count = suc d.attempt_count;
  next_attempt_at = now + seconds lease;
}

abbrev pub claim_of : ℕ → ℕ → Delivery → Subscription → Claim
claim_of lease now d s = record {
  id = d.id;
  target_url = s.target_url;
  signing_key_id = s.signing_key_id;
  payload = d.payload;
  attempt_count = (leased lease now d).attempt_count;
}

-- The row after the loop's body, and what the body claims.
pub claim_row : ℕ → ℕ → Delivery → Option Subscription → Delivery × List Claim
claim_row lease now d none = (dropped d, [])
claim_row lease now d (some s) = (leased lease now d, claim_of lease now d s ∷ [])

abbrev pub has_id : ℕ → Delivery → Bool
has_id id d = id == d.id

abbrev pub join : List Claim → List Claim → List Claim
join [] cs = cs
join (c ∷ bs) cs = c ∷ join bs cs

-- The loop over the selected rows, which are written in place.
unfoldable pub claim_each :
    ℕ → ℕ → List Subscription → List Delivery → List Delivery → List Claim × List Delivery
unfolding claim_row
claim_each lease now subs [] table = ([], table)
claim_each lease now subs (d ∷ ds) table =
    let (row, claims) = claim_row lease now d (live (subscription_of d subs)) in
    let rest = claim_each lease now subs ds (update (has_id d.id) (λ _. row) table) in
    (join claims rest.0, rest.1)

-- `SqlWebhookDeliveryStore.claim_due`; the first argument is `lease_seconds`.
unfoldable pub claim_due : ℕ → (ℕ → Bool) → ℕ → ℕ → Outbox → List Claim × Outbox
unfolding order_due limit claim_each
claim_due lease locked now n box =
    let selected = limit n (order_due (keep (is_due locked now) box.deliveries)) in
    let (claims, table) = claim_each lease now box.subscriptions selected box.deliveries in
    (claims, record box { deliveries = table })

pub record Completion : Type 0 where
  pub delivery_id : ℕ
  pub attempt_count : ℕ
  pub state : DeliveryState
  pub next_attempt_at : Option ℕ
  pub status_code : Option ℕ
  pub error : Option String

-- `error[:255]`
unfoldable pub truncate : ℕ → String → String
truncate zero s = ""
truncate (suc n) String.[] = ""
truncate (suc n) (String.◌∷◌ c s) = String.◌∷◌ c (truncate n s)

abbrev truncated : Option String → Option String
truncated none = none
truncated (some e) = some (truncate 255 e)

abbrev or_else : Option ℕ → ℕ → ℕ
or_else none old = old
or_else (some new) old = new

-- The `where` of `finish`
abbrev pub awaits : Completion → Delivery → Bool
awaits c d = c.delivery_id == d.id && (is_delivering d.state && d.attempt_count == c.attempt_count)

unfoldable pub completed : ℕ → Completion → Delivery → Delivery
unfolding truncate
completed now c d = record d {
  state = c.state;
  last_status_code = c.status_code;
  last_error = truncated c.error;
  next_attempt_at = or_else c.next_attempt_at d.next_attempt_at;
  delivered_at = if is_delivered c.state then some now else d.delivered_at;
}

-- `SqlWebhookDeliveryStore.finish`; `now` is what the clock says.
unfoldable pub finish : ℕ → Completion → Outbox → Outbox
unfolding completed
finish now c box = record box { deliveries = update (awaits c) (completed now c) box.deliveries }
