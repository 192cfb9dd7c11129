-- ===== src/Webhooks/Enqueueing.antt =====
-- Enqueueing the same terminal event again.
use universal_agent_studio.Prelude.{
  Bool-cases, Option-cases, ℕ, ◌≡◌, refl, inl, inr, str_mem, false, some, ok, List, [], ◌∷◌, find,
  keep, arith,
}
use universal_agent_studio.Catalog.{Tenant}
use universal_agent_studio.Webhooks.{
  Delivery, Outbox, Subscription, Payload, RunOwner, Trace, delivers, enqueue, enqueue_each,
  enqueue_terminal, new_delivery, last_terminal, live_for, payload_of,
}

enqueue-found :
    (row : Delivery) (table : List Delivery)
    → find
        (delivers row.subscription_id row.run_id row.event_sequence)
        (enqueue row table).deliveries
      ≡ some (enqueue row table).delivery
unfolding enqueue
enqueue-found row table = ground arith

enqueue-kept :
    (row : Delivery) (table : List Delivery) (a b c : ℕ) {d : Delivery}
    → find (delivers a b c) table ≡ some d
    → find (delivers a b c) (enqueue row table).deliveries ≡ some d
unfolding enqueue
enqueue-kept row table a b c {d} h = ground arith

enqueue-reused :
    (row : Delivery) (table : List Delivery) {d : Delivery}
    → find (delivers row.subscription_id row.run_id row.event_sequence) table ≡ some d
    → enqueue row table ≡ record { delivery = d; created = false; deliveries = table }
unfolding enqueue
enqueue-reused row table h = rw (h) refl

enqueue_each-kept :
    (fresh : ℕ → ℕ) (now : ℕ) (payload : Payload) (sequence : ℕ) (ss : List Subscription)
    (table : List Delivery) (a b c : ℕ) {d : Delivery}
    → find (delivers a b c) table ≡ some d
    → find (delivers a b c) (enqueue_each fresh now payload sequence ss table).1 ≡ some d
unfolding enqueue_each
enqueue_each-kept fresh now payload sequence [] table a b c h = h
enqueue_each-kept fresh now payload sequence (s ∷ ss) table a b c h =
    let row = new_delivery s (fresh s.id) now payload.run_id sequence payload.event_type payload in
    elim (Bool-cases (str_mem payload.event_type s.events)) [
      | inl wanted ↦ rw (wanted) (
          enqueue_each-kept fresh now payload sequence ss (enqueue row table).deliveries a b c
            (enqueue-kept row table a b c h))
      | inr unwanted ↦ rw (unwanted) (enqueue_each-kept fresh now payload sequence ss table a b c h)
    ]

-- A later pass over the same subscriptions finds every row of the first one.
enqueue_each-repeated :
    (fresh fresh' : ℕ → ℕ) (now now' : ℕ) (payload : Payload) (sequence : ℕ)
    (ss : List Subscription) (table later : List Delivery)
    → ((a b c : ℕ) (d : Delivery)
        → find (delivers a b c) (enqueue_each fresh now payload sequence ss table).1 ≡ some d
        → find (delivers a b c) later ≡ some d)
    → enqueue_each fresh' now' payload sequence ss later
      ≡ ((enqueue_each fresh now payload sequence ss table).0, later)
unfolding enqueue_each
enqueue_each-repeated fresh fresh' now now' payload sequence [] table later h = refl
enqueue_each-repeated fresh fresh' now now' payload sequence (s ∷ ss) table later h =
    let row = new_delivery s (fresh s.id) now payload.run_id sequence payload.event_type payload in
    let row' =
      new_delivery s (fresh' s.id) now' payload.run_id sequence payload.event_type payload in
    elim (Bool-cases (str_mem payload.event_type s.events)) [
      | inl wanted ↦
          let done = enqueue row table in
          let earlier = enqueue_each fresh now payload sequence ss done.deliveries in
          let ih : enqueue_each fresh' now' payload sequence ss later ≡ (earlier.0, later) =
            enqueue_each-repeated fresh fresh' now now' payload sequence ss done.deliveries later
              (λ a b c d found. h a b c d (rw (wanted) found)) in
          let known : find (delivers s.id payload.run_id sequence) later ≡ some done.delivery =
            h s.id payload.run_id sequence done.delivery (
              rw (wanted) (
                enqueue_each-kept fresh now payload sequence ss done.deliveries s.id payload.run_id
                  sequence (enqueue-found row table))) in
          rw (wanted, enqueue-reused row' later known, ih) refl
      | inr unwanted ↦ rw (unwanted) (
          enqueue_each-repeated fresh fresh' now now' payload sequence ss table later
            (λ a b c d found. h a b c d (rw (unwanted) found)))
    ]

-- Enqueueing the terminal event of a run again, at another time and with other fresh identifiers,
-- gives back the very same deliveries and adds none.
pub enqueue_terminal-repeated :
    (owner : RunOwner) (t : Tenant) (fresh fresh' : ℕ → ℕ) (now now' : ℕ) (trace : Trace)
    (box : Outbox) (created : List Delivery)
    → (enqueue_terminal (some owner) t fresh now trace box).0 ≡ ok created
    → let box' = (enqueue_terminal (some owner) t fresh now trace box).1 in
      enqueue_terminal (some owner) t fresh' now' trace box' ≡ (ok created, box')
unfolding enqueue_terminal
enqueue_terminal-repeated owner t fresh fresh' now now' trace box created h =
    elim (Option-cases (last_terminal trace.events)) [
      | inl missing ↦ absurd (ground (arith, h, missing))
      | inr (terminal, found) ↦
          let payload = payload_of owner trace terminal in
          let chosen = keep (live_for t owner.agent.id) box.subscriptions in
          let first = enqueue_each fresh now payload terminal.sequence chosen box.deliveries in
          let again : enqueue_each fresh' now' payload terminal.sequence chosen first.1
              ≡ (first.0, first.1) =
            enqueue_each-repeated fresh fresh' now now' payload terminal.sequence chosen
              box.deliveries first.1 (λ a b c d known. known) in
          let same : first.0 ≡ created = ground (arith, h, found) in rw (found, again, same) refl
    ]
