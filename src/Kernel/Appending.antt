-- ===== src/Kernel/Appending.antt =====
-- The checks of `validate_run_trace` on a list with one more event at its end.
use universal_agent_studio.Prelude.{
  ℕ, suc, ◌+◌, ◌==◌, ◌≡◌, ◌≢◌, refl, ◌∙◌, inl, inr, Bool-cases, Bool, true, ◌&&◌, ◌||◌, List, [],
  ◌∷◌, ◌++◌, length, any, all, All, last?, arith,
}
use universal_agent_studio.Kernel.{RunEvent}
use universal_agent_studio.Kernel.Recorder.{event_id_or, numbered_from, distinct_ids, caused_from}

pub numbered_from-snoc :
    (n : ℕ) (es : List RunEvent) (e : RunEvent)
    → numbered_from n es ≡ true
    → e.sequence ≡ n + length es
    → numbered_from n (es ++ e ∷ []) ≡ true
unfolding numbered_from
numbered_from-snoc n [] e h k = ground arith
numbered_from-snoc n (x ∷ es) e h k = ground (arith, numbered_from-snoc (suc n) es e)

-- Of a list that has a last event, the default does not count.
last_cause :
    (a b : ℕ) (y : RunEvent) (es : List RunEvent)
    → event_id_or a (last? (y ∷ es)) ≡ event_id_or b (last? (y ∷ es))
last_cause a b y [] = refl
last_cause a b y (z ∷ es) = last_cause a b z es

pub caused_from-snoc :
    (cause : ℕ) (es : List RunEvent) (e : RunEvent)
    → caused_from cause es ≡ true
    → e.causation_id ≡ event_id_or cause (last? es)
    → caused_from cause (es ++ e ∷ []) ≡ true
unfolding caused_from
caused_from-snoc cause [] e h k = ground arith
caused_from-snoc cause (x ∷ []) e h k = ground arith
caused_from-snoc cause (x ∷ y ∷ es) e h k =
    let rest : caused_from x.event_id (y ∷ es) ≡ true = ground (arith, h) in
    let ih : caused_from x.event_id (y ∷ (es ++ e ∷ [])) ≡ true =
      caused_from-snoc x.event_id (y ∷ es) e rest (k ∙ last_cause cause x.event_id y es) in
    elim (Bool-cases (x.causation_id == cause)) [
      | inl first ↦ rw (first) ih
      | inr other ↦ absurd (ground (arith, h, other))
    ]

any-snoc :
    (p : RunEvent → Bool) (es : List RunEvent) (e : RunEvent)
    → any p (es ++ e ∷ []) ≡ (any p es || p e)
any-snoc p [] e = ground arith
any-snoc p (x ∷ es) e = ground (arith, any-snoc p es e)

pub all-snoc :
    (p : RunEvent → Bool) (es : List RunEvent) (e : RunEvent)
    → all p (es ++ e ∷ []) ≡ (all p es && p e)
all-snoc p [] e = ground arith
all-snoc p (x ∷ es) e = ground (arith, all-snoc p es e)

pub distinct_ids-snoc :
    (es : List RunEvent) (e : RunEvent)
    → distinct_ids es ≡ true
    → All (λ x. x.event_id ≢ e.event_id) es
    → distinct_ids (es ++ e ∷ []) ≡ true
unfolding distinct_ids
distinct_ids-snoc [] e h k = refl
distinct_ids-snoc (x ∷ es) e h k =
    ground (arith, any-snoc (λ f. x.event_id == f.event_id) es e, distinct_ids-snoc es e, k.0, k.1)
