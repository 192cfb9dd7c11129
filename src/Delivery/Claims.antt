-- ===== src/Delivery/Claims.antt =====
-- What `claim_due` hands out.
use universal_agent_studio.Prelude.{
  ℕ, suc, ◌≡◌, refl, inl, inr, Bool-cases, Option-cases, Bool, true, false, some, List, [], ◌∷◌,
  All, find,
}
use universal_agent_studio.Webhooks.{Delivery, Outbox, Subscription, is_revoked}
use universal_agent_studio.Delivery.{Claim, claim_due, claim_each, has_id, is_due, subscription_of}
use universal_agent_studio.Delivery.Selection.{IsKeyed, selected-All}

-- The claim of a row with the given property: one more attempt, at the target of a live
-- subscription.
abbrev pub IsClaim : List Subscription → (Delivery → Type 0) → Claim → Type 0
IsClaim subs P c =
    (d : Delivery) × P d
    × (c.id ≡ d.id)
    × (c.attempt_count ≡ suc d.attempt_count)
    × (s : Subscription) × (subscription_of d subs ≡ some s)
    × (is_revoked s ≡ false)
    × (c.target_url ≡ s.target_url)

module _ (lease now : ℕ) (subs : List Subscription) (P : Delivery → Type 0) where
  claim_each-IsClaim :
      (ds table : List Delivery)
      → All P ds
      → All (IsClaim subs P) (claim_each lease now subs ds table).0
  unfolding claim_each
  claim_each-IsClaim [] table h = tt
  claim_each-IsClaim (d ∷ ds) table h = elim (Option-cases (subscription_of d subs)) [
    | inl missing ↦ rw (missing) (claim_each-IsClaim ds _ h.1)
    | inr (s, found) ↦ elim (Bool-cases (is_revoked s)) [
      | inl revoked ↦ rw (found, revoked) (claim_each-IsClaim ds _ h.1)
      | inr alive ↦
          rw (found, alive)
            ((d, h.0, refl, refl, s, found, alive, refl), claim_each-IsClaim ds _ h.1)
    ]
  ]

-- Every claim is of a row that is due, with one more attempt than the row has, at the target of its
-- subscription, which is there and not revoked; identifiers are keys.
pub claim_due-IsClaim :
    (lease : ℕ) (locked : ℕ → Bool) (now n : ℕ) (box : Outbox)
    → IsKeyed box.deliveries
    → All
        (IsClaim box.subscriptions
          (λ d. (find (has_id d.id) box.deliveries ≡ some d) × (is_due locked now d ≡ true)))
        (claim_due lease locked now n box).0
unfolding claim_due
claim_due-IsClaim lease locked now n box keyed =
    claim_each-IsClaim lease now box.subscriptions _ _ box.deliveries
      (selected-All locked now n box.deliveries keyed)
