-- ===== src/Dispatcher/Outcomes.antt =====
-- What an attempt may lead to.
use universal_agent_studio.Prelude.{
  Bool-cases, Result-cases, String, ℕ, ◌+◌, ◌<◌, ◌≤◌, ◌^◌, min, leb, ◌≡◌, ◌≢◌, refl, ◌⊎◌, inl, inr,
  Bool, true, false, Option, none, some, arith, Result, ok, err,
}
use native.Mathlib.Nat.{one-le-pow, pow-le-pow_right}
use universal_agent_studio.Webhooks.{DeliveryState, pending, delivered, failed}
use universal_agent_studio.Delivery.{Claim, Completion, seconds}
use universal_agent_studio.Dispatcher.{
  Answer, response, transport_failure, Config, UrlError, answered, deliver, delay, finish_transient,
  is_success, is_transient, origin, origin_allowed,
}
use universal_agent_studio.Dispatcher.Targets.{
  IsMalformed, IsTarget, allowed-IsTarget, IsTarget-allowed, origin-IsMalformed,
}

capped : (n : ℕ) → n ≤ 6 → (1 ≤ 2 ^ n) × (2 ^ n ≤ 64)
capped n h =
    (one-le-pow n 2 (omega arith), pow-le-pow_right {n = 2} (omega arith) {i = n} {j = 6} h)

waits :
    (now n : ℕ)
    → (1 ≤ n) × (n ≤ 64)
    → (now + seconds 1 ≤ now + seconds n) × (now + seconds n ≤ now + seconds 64)
waits now n h = (omega arith, omega arith)

-- A status of 2xx.
abbrev pub IsSuccessful : Answer → Type 0
IsSuccessful transport_failure = ⊥
IsSuccessful (response status) = (200 ≤ status) × (status < 300)

-- An answer after which a later attempt may succeed: no answer at all, a timeout, a conflict, too
-- early or too many requests, or an error of the server.
abbrev pub IsTemporary : Answer → Type 0
IsTemporary transport_failure = Unit
IsTemporary (response status) =
    (status ≡ 408)
    ⊎ ((status ≡ 409) ⊎ ((status ≡ 425) ⊎ ((status ≡ 429) ⊎ ((500 ≤ status) × (status < 600)))))

-- Any other answer.
abbrev pub IsPermanent : Answer → Type 0
IsPermanent transport_failure = ⊥
IsPermanent (response status) =
    ((status < 200) ⊎ (300 ≤ status))
    × (status ≢ 408)
    × (status ≢ 409)
    × (status ≢ 425)
    × (status ≢ 429)
    × ((status < 500) ⊎ (600 ≤ status))

abbrev pub status_of : Answer → Option ℕ
status_of transport_failure = none
status_of (response status) = some status

-- A retry: there are attempts left, and the wait is between one second and 64.
abbrev pub IsRetry : ℕ → Claim → ℕ → Completion → Type 0
IsRetry max_attempts claim now c =
    (c.state ≡ pending)
    × (claim.attempt_count < max_attempts)
    × (at : ℕ) × (c.next_attempt_at ≡ some at)
    × (now + seconds 1 ≤ at)
    × (at ≤ now + seconds 64)

-- The end of a delivery, with no further attempt.
abbrev pub Ends : DeliveryState → Completion → Type 0
Ends state c = (c.state ≡ state) × (c.next_attempt_at ≡ none)

-- What becomes of the claim after the answer.
abbrev pub Follows : ℕ → Claim → ℕ → Answer → Completion → Type 0
Follows max_attempts claim now answer c =
    (IsSuccessful answer × Ends delivered c)
    ⊎ ((IsTemporary answer
          × (IsRetry max_attempts claim now c
              ⊎ ((max_attempts ≤ claim.attempt_count) × Ends failed c)))
        ⊎ (IsPermanent answer × Ends failed c))

-- A completion of the claim's own attempt.
abbrev pub IsOwn : Claim → Completion → Type 0
IsOwn claim c = (c.delivery_id ≡ claim.id) × (c.attempt_count ≡ claim.attempt_count)

abbrev pub IsOutcome : ℕ → Claim → ℕ → Answer → Completion → Type 0
IsOutcome max_attempts claim now answer c =
    IsOwn claim c × (c.status_code ≡ status_of answer) × Follows max_attempts claim now answer c

-- What a temporary answer leads to.
abbrev Postponed : ℕ → Claim → ℕ → Option ℕ → Completion → Type 0
Postponed max_attempts claim now status c =
    IsOwn claim c
    × (c.status_code ≡ status)
    × (IsRetry max_attempts claim now c ⊎ ((max_attempts ≤ claim.attempt_count) × Ends failed c))

finish_transient-Postponed :
    (max_attempts : ℕ) (claim : Claim) (now : ℕ) (status : Option ℕ) (error : String)
    → Postponed max_attempts claim now status (finish_transient max_attempts claim now status error)
unfolding finish_transient
finish_transient-Postponed max_attempts claim now status error =
    let bounds =
      waits now (delay claim.attempt_count) (capped (min claim.attempt_count 6) (omega arith)) in
    elim (Bool-cases (leb max_attempts claim.attempt_count)) [
      | inl spent ↦ rw (spent) ((refl, refl), refl, inr (ground arith, (refl, refl)))
      | inr left ↦ rw (left) (
        (refl, refl),
        refl,
        inl (
          refl,
          ground arith,
          now + seconds (delay claim.attempt_count),
          refl,
          bounds.0,
          bounds.1,
        ),
      )
    ]

is_transient-IsTemporary : (status : ℕ) → is_transient status ≡ true → IsTemporary (response status)
is_transient-IsTemporary status h = ground (arith, h)

is_transient-IsPermanent :
    (status : ℕ)
    → is_success status ≡ false
    → is_transient status ≡ false
    → IsPermanent (response status)
is_transient-IsPermanent status h k = ground (arith, h, k)

answered-IsOutcome :
    (max_attempts : ℕ) (claim : Claim) (now : ℕ) (answer : Answer)
    → IsOutcome max_attempts claim now answer (answered max_attempts claim now answer)
unfolding answered
answered-IsOutcome max_attempts claim now transport_failure =
    let (own, status, follows) =
      finish_transient-Postponed max_attempts claim now none "transport_failure" in
    (own, status, inr (inl (tt, follows)))
answered-IsOutcome max_attempts claim now (response status) =
    elim (Bool-cases (is_success status)) [
      | inl success ↦
          rw (success) ((refl, refl), refl, inl ((ground arith, ground arith), (refl, refl)))
      | inr other ↦ elim (Bool-cases (is_transient status)) [
        | inl transient ↦
            let (own, known, follows) =
              finish_transient-Postponed max_attempts claim now (some status)
                "http_transient_failure" in
            rw (other, transient)
              (own, known, inr (inl (is_transient-IsTemporary status transient, follows)))
        | inr permanent ↦
            rw (other, permanent)
              (
                (refl, refl),
                refl,
                inr (inr (is_transient-IsPermanent status other permanent, (refl, refl))),
              )
      ]
    ]

-- What `_deliver` does.
abbrev pub IsDecided : Config → Claim → ℕ → Answer → Result UrlError (Bool × Completion) → Type 0
IsDecided config claim now answer (err e) = IsMalformed (config.urlsplit claim.target_url)
IsDecided config claim now answer (ok (true, c)) =
    IsTarget config claim × IsOutcome config.max_attempts claim now answer c
IsDecided config claim now answer (ok (false, c)) =
    ¬ IsTarget config claim × IsOwn claim c × (c.status_code ≡ none) × Ends failed c

-- A request is sent exactly to a target that the list allows. A success is delivered; after a
-- temporary answer the delivery is tried again, between one and 64 seconds later, while attempts are
-- left, and fails when none is; after any other answer it fails. The completion carries the
-- claim's identifier and attempt number and the status of the answer. Without a request the delivery
-- fails, or, for a malformed URL only, an exception is raised.
pub deliver-IsDecided :
    (config : Config) (now : ℕ) (send : Claim → Answer) (claim : Claim)
    → IsDecided config claim now (send claim) (deliver config now send claim)
unfolding deliver
deliver-IsDecided config now send claim =
    let split = config.urlsplit claim.target_url in
    elim (Result-cases (origin split)) [
      | inr (e, raised) ↦ rw (raised) (origin-IsMalformed split e raised)
      | inl (o, read) ↦ elim (Bool-cases (origin_allowed o config.allowed_origins)) [
        | inl allowed ↦
            rw (read, allowed)
              (
                allowed-IsTarget config claim o read allowed,
                answered-IsOutcome config.max_attempts claim now (send claim),
              )
        | inr refused ↦
            rw (read, refused)
              (
                λ target. cc (IsTarget-allowed config claim o read target, refused),
                (refl, refl),
                refl,
                (refl, refl),
              )
      ]
    ]
