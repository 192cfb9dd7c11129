-- ===== src/Delivery/Selection.antt =====
-- The rows that `claim_due` selects.
use universal_agent_studio.Prelude.{
  Bool-cases, ℕ, zero, suc, ◌≡◌, inl, inr, Bool, true, some, List, [], ◌∷◌, All, find, keep,
}
use universal_agent_studio.Webhooks.{Delivery}
use universal_agent_studio.Delivery.{before, has_id, insert_due, is_due, limit, order_due}

-- Every row is the one that its identifier finds.
abbrev pub IsKeyed : List Delivery → Type 0
IsKeyed ds = All (λ d. find (has_id d.id) ds ≡ some d) ds

module _ (P : Delivery → Type 0) where
  All-keep :
      (p : Delivery → Bool) (ds : List Delivery)
      → All P ds
      → All (λ d. P d × (p d ≡ true)) (keep p ds)
  All-keep p [] h = tt
  All-keep p (d ∷ ds) h = elim (Bool-cases (p d)) [
    | inl held ↦ rw (held) ((h.0, held), All-keep p ds h.1)
    | inr missed ↦ rw (missed) (All-keep p ds h.1)
  ]

  All-insert_due : (d : Delivery) (ds : List Delivery) → P d → All P ds → All P (insert_due d ds)
  unfolding insert_due
  All-insert_due d [] k h = (k, tt)
  All-insert_due d (e ∷ es) k h = elim (Bool-cases (before d e)) [
    | inl held ↦ rw (held) (k, h)
    | inr missed ↦ rw (missed) (h.0, All-insert_due d es k h.1)
  ]

  All-order_due : (ds : List Delivery) → All P ds → All P (order_due ds)
  unfolding order_due
  All-order_due [] h = tt
  All-order_due (d ∷ ds) h = All-insert_due d (order_due ds) h.0 (All-order_due ds h.1)

  All-limit : (n : ℕ) (ds : List Delivery) → All P ds → All P (limit n ds)
  unfolding limit
  All-limit zero ds h = tt
  All-limit (suc n) [] h = tt
  All-limit (suc n) (d ∷ ds) h = (h.0, All-limit n ds h.1)

-- They are rows of the table, and due.
pub selected-All :
    (locked : ℕ → Bool) (now n : ℕ) (table : List Delivery)
    → IsKeyed table
    → All
        (λ e. (find (has_id e.id) table ≡ some e) × (is_due locked now e ≡ true))
        (limit n (order_due (keep (is_due locked now) table)))
selected-All locked now n table keyed =
    let P = λ (e : Delivery). (find (has_id e.id) table ≡ some e) × (is_due locked now e ≡ true) in
    All-limit P n (order_due (keep (is_due locked now) table)) (
      All-order_due P (keep (is_due locked now) table)
        (All-keep (λ e. find (has_id e.id) table ≡ some e) (is_due locked now) table keyed))
