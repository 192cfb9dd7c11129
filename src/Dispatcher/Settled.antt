-- ===== src/Dispatcher/Settled.antt =====
-- Deliveries that are settled: delivered, failed or cancelled.
use universal_agent_studio.Prelude.{
  Bool-cases, Result-cases, ℕ, ◌≡◌, refl, sym, ◌∙◌, inl, inr, Bool, true, false, Option, none, some,
  List, [], ◌∷◌, All, All-map, find, find-update, keep, update, arith,
}
use universal_agent_studio.Webhooks.{Delivery, Outbox, Subscription}
use universal_agent_studio.Delivery.{
  Claim, Completion, awaits, claim_due, claim_each, claim_row, completed, finish, has_id, is_due,
  is_open, limit, order_due, live, subscription_of,
}
use universal_agent_studio.Dispatcher.{Answer, Config, deliver, deliver_each, dispatch_once}
use universal_agent_studio.Delivery.Selection.{IsKeyed, selected-All}

find-overwritten :
    (id : ℕ) (e row : Delivery) (table : List Delivery)
    → row.id ≡ e.id
    → has_id id e ≡ false
    → find (has_id id) (update (has_id e.id) (λ _. row) table) ≡ find (has_id id) table
find-overwritten id e row [] same other = refl
find-overwritten id e row (d ∷ ds) same other =
    ground (arith, find-overwritten id e row ds same other)

claim_row-id :
    (lease now : ℕ) (d : Delivery) (s : Option Subscription) → (claim_row lease now d s).0.id ≡ d.id
unfolding claim_each
claim_row-id lease now d none = refl
claim_row-id lease now d (some s) = refl

find-claim_each :
    (id lease now : ℕ) (subs : List Subscription) (ds table : List Delivery)
    → All (λ d. has_id id d ≡ false) ds
    → find (has_id id) (claim_each lease now subs ds table).1 ≡ find (has_id id) table
unfolding claim_each
find-claim_each id lease now subs [] table h = refl
find-claim_each id lease now subs (d ∷ ds) table h =
    let row = (claim_row lease now d (live (subscription_of d subs))).0 in
    find-claim_each id lease now subs ds (update (has_id d.id) (λ _. row) table) h.1
    ∙ find-overwritten id d row table (claim_row-id lease now d (live (subscription_of d subs))) h.0

module _ (id : ℕ) (d : Delivery) (settled : is_open d.state ≡ false) where
  abbrev Finds : Outbox → Type 0
  Finds box = find (has_id id) box.deliveries ≡ some d

  finish-Finds : (now : ℕ) (c : Completion) (box : Outbox) → Finds box → Finds (finish now c box)
  unfolding finish
  finish-Finds now c box h =
      let shut : awaits c d ≡ false = ground (arith, settled) in
      find-update (has_id id) (awaits c) (completed now c) (λ x. refl) box.deliveries
      ∙ rw (h, shut) refl

  deliver_each-Finds :
      (config : Config) (now : ℕ) (send : Claim → Answer) (clock : Claim → ℕ) (cs : List Claim)
      (box : Outbox)
      → Finds box
      → Finds (deliver_each config now send clock cs box).1
  unfolding deliver_each
  deliver_each-Finds config now send clock [] box h = h
  deliver_each-Finds config now send clock (c ∷ cs) box h =
      elim (Result-cases (deliver config now send c)) [
        | inl ((sent, done), e) ↦
            rw (e, deliver_each)
              (deliver_each-Finds config now send clock cs (finish (clock c) done box)
                (finish-Finds (clock c) done box h))
        | inr (x, e) ↦ rw (e, deliver_each) h
      ]

  unselected :
      (locked : ℕ → Bool) (now : ℕ) (table : List Delivery) (e : Delivery)
      → find (has_id id) table ≡ some d
      → (find (has_id e.id) table ≡ some e) × (is_due locked now e ≡ true)
      → has_id id e ≡ false
  unselected locked now table e h k = elim (Bool-cases (has_id id e)) [
    | inl same ↦
        let key : id ≡ e.id = ground (arith, same) in
        let both : some d ≡ some e = sym h ∙ rw (key) k.0 in
        absurd (grind (arith, both, settled, k))
    | inr other ↦ other
  ]

-- A delivery that is delivered, failed or cancelled stays as it is, whatever a pass of the
-- dispatcher claims, sends and is answered; identifiers are keys.
pub dispatch_once-settled :
    (config : Config) (locked : ℕ → Bool) (now : ℕ) (send : Claim → Answer) (clock : Claim → ℕ)
    (box : Outbox) (id : ℕ) (d : Delivery)
    → is_open d.state ≡ false
    → IsKeyed box.deliveries
    → find (has_id id) box.deliveries ≡ some d
    → find (has_id id) (dispatch_once config locked now send clock box).1.deliveries ≡ some d
unfolding dispatch_once claim_due
dispatch_once-settled config locked now send clock box id d settled keyed h =
    let selected = limit config.batch_size (order_due (keep (is_due locked now) box.deliveries)) in
    let (claims, table) =
      claim_each config.lease_seconds now box.subscriptions selected box.deliveries in
    let chosen = selected-All locked now config.batch_size box.deliveries keyed in
    deliver_each-Finds id d settled config now send clock claims (record box { deliveries = table })
      (find-claim_each id config.lease_seconds now box.subscriptions selected box.deliveries (
          All-map _ (λ e. has_id id e ≡ false)
            (λ e k. unselected id d settled locked now box.deliveries e h k) selected chosen)
        ∙ h)
