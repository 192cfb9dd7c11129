-- ===== src/Delivery/Fencing.antt =====
-- The fence of SqlWebhookDeliveryStore.finish, for a worker that lost its lease.
use universal_agent_studio.Prelude.{
  ℕ, ◌<◌, ◌≡◌, refl, ap, ◌⊎◌, Bool, false, List, [], ◌∷◌, All, All-map, update, arith,
}
use universal_agent_studio.Webhooks.{Delivery, Outbox}
use universal_agent_studio.Delivery.{Completion, awaits, completed, finish, has_id, is_delivering}

pub update-none {ℓ} :
    {A : Type ℓ} (p : A → Bool) (f : A → A) (xs : List A)
    → All (λ x. p x ≡ false) xs
    → update p f xs ≡ xs
update-none p f [] h = refl
update-none p f (x ∷ xs) h = ground (arith, update-none p f xs h.1)

-- A row that is out of the reach of a completion.
abbrev pub IsBeyond : Completion → Delivery → Type 0
IsBeyond c d =
    (has_id c.delivery_id d ≡ false)
    ⊎ ((is_delivering d.state ≡ false) ⊎ (c.attempt_count < d.attempt_count))

beyond : (c : Completion) (d : Delivery) → IsBeyond c d → awaits c d ≡ false
beyond c d h = ground arith

-- A completion of an attempt after which the delivery was claimed again, or of a delivery that is
-- not being delivered any more, changes nothing at all.
pub finish_stale :
    (now : ℕ) (c : Completion) (box : Outbox)
    → All (IsBeyond c) box.deliveries
    → finish now c box ≡ box
unfolding finish
finish_stale now c box h =
    ap (λ table. record box { deliveries = table })
      (update-none (awaits c) (completed now c) box.deliveries
        (All-map (IsBeyond c) (λ d. awaits c d ≡ false) (beyond c) box.deliveries h))
