-- ===== src/Dispatcher.antt =====
-- workers/runtime/src/universal_agent_studio_runtime/webhooks/dispatcher.py, the class
-- WebhookDispatcher: what is sent, and what an answer does to the delivery. `urlsplit` and the HTTP
-- exchange are arguments; the signature of the body is left out, as it decides nothing here.
pub mod Targets
pub mod Outcomes
pub mod Settled
use universal_agent_studio.Prelude.{
  ℕ, ◌+◌, ◌^◌, min, ◌==◌, ltb, leb, String, str_eq, str_mem, if◌then◌else◌, Bool, true, false, ◌&&◌,
  ◌||◌, not, is_some, Option, none, some, List, [], ◌∷◌, Result, ok, err,
}
use universal_agent_studio.Webhooks.{DeliveryState, Outbox, pending, delivered, failed}
use universal_agent_studio.Delivery.{Claim, Completion, claim_due, finish, seconds}
use Prim.Native.Char.{code}

-- `ValueError`, which a malformed URL raises.
pub data UrlError : Type 0 where
  value_error : UrlError

-- What `urlsplit` gives: the port is its decimal text, and none where reading it raises.
pub record SplitUrl : Type 0 where
  pub scheme : String
  pub hostname : Option String
  pub username : Option String
  pub password : Option String
  pub port : Option (Option String)
  pub fragment : String

-- The answer of `http_client.send`, or the transport errors that `_deliver` catches.
pub data Answer : Type 0 where
  response : ℕ → Answer
  transport_failure : Answer

pub record Config : Type 0 where
  pub urlsplit : String → Option SplitUrl  -- none where it raises
  pub allowed_origins : List String
  pub max_attempts : ℕ
  pub batch_size : ℕ
  pub lease_seconds : ℕ

infixr 66 ◌<>◌
unfoldable pub ◌<>◌ : String → String → String
String.[] <> t = t
(String.◌∷◌ c s) <> t = String.◌∷◌ c (s <> t)

unfoldable pub has_colon : String → Bool
has_colon String.[] = false
has_colon (String.◌∷◌ c s) = code c == b':' || has_colon s

abbrev pub opens_bracket : String → Bool
opens_bracket String.[] = false
opens_bracket (String.◌∷◌ c s) = code c == b'['

abbrev pub with_port : String → Option (Option String) → Result UrlError (Option String)
with_port base none = err value_error
with_port base (some none) = ok (some base)
with_port base (some (some port)) = ok (some (base <> ":" <> port))

abbrev pub bracketed : String → String
bracketed host = if has_colon host && not (opens_bracket host) then "[" <> host <> "]" else host

abbrev pub origin_at : SplitUrl → Option String → Result UrlError (Option String)
origin_at parsed none = ok none
origin_at parsed (some hostname) =
    with_port (parsed.scheme <> "://" <> bracketed hostname) parsed.port

-- `_origin` of what `urlsplit` gives
unfoldable pub origin : Option SplitUrl → Result UrlError (Option String)
unfolding ◌<>◌ has_colon
origin none = err value_error
origin (some parsed) =
    if not (str_mem parsed.scheme ("http" ∷ "https" ∷ []))
      || (is_some parsed.username || (is_some parsed.password || not (str_eq parsed.fragment "")))
    then ok none
    else origin_at parsed parsed.hostname

-- `value.rstrip("/")`
unfoldable pub rstrip_slash : String → String
rstrip_slash String.[] = ""
rstrip_slash (String.◌∷◌ c s) =
    let rest = rstrip_slash s in if code c == b'/' && str_eq rest "" then "" else String.◌∷◌ c rest

unfoldable pub origin_allowed : Option String → List String → Bool
unfolding rstrip_slash
origin_allowed none allowed = false
origin_allowed (some o) [] = false
origin_allowed (some o) (a ∷ as') = str_eq o (rstrip_slash a) || origin_allowed (some o) as'

-- `TRANSIENT_STATUS_CODES`, or a server error
abbrev pub is_transient : ℕ → Bool
is_transient status =
    (status == 408 || (status == 409 || (status == 425 || status == 429)))
    || leb 500 status && ltb status 600

abbrev pub is_success : ℕ → Bool
is_success status = leb 200 status && ltb status 300

abbrev pub completion : Claim → DeliveryState → Option ℕ → Option ℕ → Option String → Completion
completion claim state next_attempt_at status_code error = record {
  delivery_id = claim.id;
  attempt_count = claim.attempt_count;
  state = state;
  next_attempt_at = next_attempt_at;
  status_code = status_code;
  error = error;
}

-- `2 ** min(delivery.attempt_count, 6)`
abbrev pub delay : ℕ → ℕ
delay attempt_count = 2 ^ min attempt_count 6

-- `_finish_transient`
unfoldable pub finish_transient : ℕ → Claim → ℕ → Option ℕ → String → Completion
finish_transient max_attempts claim now status error =
    if leb max_attempts claim.attempt_count
    then completion claim failed none status (some error)
    else completion claim pending (some (now + seconds (delay claim.attempt_count))) status
        (some error)

unfoldable pub answered : ℕ → Claim → ℕ → Answer → Completion
unfolding finish_transient
answered max_attempts claim now transport_failure =
    finish_transient max_attempts claim now none "transport_failure"
answered max_attempts claim now (response status) =
    if is_success status
    then completion claim delivered none (some status) none
    else if is_transient status
    then finish_transient max_attempts claim now (some status) "http_transient_failure"
    else completion claim failed none (some status) (some "http_permanent_failure")

-- `_deliver`: whether anything is sent, and the completion that is stored; or it raises, and
-- neither happens.
abbrev pub decided :
    Config
    → ℕ
    → Answer
    → Claim
    → Result UrlError (Option String)
    → Result UrlError (Bool × Completion)
decided config now answer claim (err e) = err e
decided config now answer claim (ok o) =
    if origin_allowed o config.allowed_origins
    then ok (true, answered config.max_attempts claim now answer)
    else ok (false, completion claim failed none none (some "webhook_origin_not_allowed"))

unfoldable pub deliver : Config → ℕ → (Claim → Answer) → Claim → Result UrlError (Bool × Completion)
unfolding origin_allowed origin answered
deliver config now send claim =
    decided config now (send claim) claim (origin (config.urlsplit claim.target_url))

-- The claims for which a request was sent, and the exception that ended the pass, if one did.
pub record Pass : Type 0 where
  pub requested : List Claim
  pub raised : Option UrlError

abbrev request : Bool → Claim → Pass → Pass
request sent c pass = record pass {
  requested = if sent then c ∷ pass.requested else pass.requested;
}

-- The loop of `dispatch_once` over the claims; the claims behind one that raises keep their leases.
-- The clock is read again when a claim is finished.
unfoldable pub deliver_each :
    Config → ℕ → (Claim → Answer) → (Claim → ℕ) → List Claim → Outbox → Pass × Outbox
unfolding deliver
deliver_each config now send clock [] box = (record { requested = []; raised = none }, box)
deliver_each config now send clock (c ∷ cs) box = elim (deliver config now send c) [
  | err e ↦ (record { requested = []; raised = some e }, box)
  | ok (sent, done) ↦
      let rest = deliver_each config now send clock cs (finish (clock c) done box) in
      (request sent c rest.0, rest.1)
]

-- `dispatch_once`, where no other worker acts in between.
unfoldable pub dispatch_once :
    Config → (ℕ → Bool) → ℕ → (Claim → Answer) → (Claim → ℕ) → Outbox → Pass × Outbox
unfolding deliver_each
dispatch_once config locked now send clock box =
    let (claims, box') = claim_due config.lease_seconds locked now config.batch_size box in
    deliver_each config now send clock claims box'
