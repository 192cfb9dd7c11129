-- ===== src/Tests/Webhooks.antt =====
-- Witnesses for the theorems about webhook deliveries.
use universal_agent_studio.Prelude.{
  true, All, ℕ, ◌≡◌, refl, inr, false, none, some, ok, [], ◌∷◌, find, arith,
}
use universal_agent_studio.Json.{str, obj, end}
use universal_agent_studio.Webhooks.{
  Delivery, delivering, delivered, failed, Outbox, Payload, RunOwner, Subscription, Trace, enqueue,
  enqueue_each, enqueue_terminal, last_terminal, payload_of, error_code, new_delivery,
}
use universal_agent_studio.Webhooks.Enqueueing.{enqueue_terminal-repeated}
use universal_agent_studio.Delivery.{claim_due, is_due, Claim, Completion, finish, has_id}
use universal_agent_studio.Delivery.Claims.{IsClaim, claim_due-IsClaim}
use universal_agent_studio.Delivery.Fencing.{finish_stale}
use universal_agent_studio.Dispatcher.{Config, response, deliver, dispatch_once}
use universal_agent_studio.Dispatcher.Outcomes.{IsDecided, deliver-IsDecided}
use universal_agent_studio.Dispatcher.Settled.{dispatch_once-settled}
use universal_agent_studio.Tests.Samples.{home, calculator, version}

program : Unit {0}
unfolding enqueue enqueue_each enqueue_terminal last_terminal payload_of error_code
program = tt

abbrev owner : RunOwner
owner = record { run_id = 70; agent = calculator; version = version 8 1 "d0" }

abbrev trace : Trace
trace = record {
  events =
      record { type = "run.started"; sequence = 1; occurred_at = str "t1" }
      ∷ record { type = "run.completed"; sequence = 2; occurred_at = str "t2" }
      ∷ [];
  status = "completed";
  output = some (obj end);
}

abbrev subscription : Subscription
subscription = record {
  id = 40;
  workspace_id = 1;
  project_id = 10;
  agent_id = 5;
  target_url = "https://hooks.example/x";
  events = "run.completed" ∷ [];
  signing_key_id = 41;
  revoked_at = none;
}

abbrev idle : Outbox
idle = record { subscriptions = subscription ∷ []; deliveries = [] }

abbrev payload : Payload
payload = record {
  agent_key = "calculator-agent";
  version_number = 1;
  version_digest = "d0";
  run_id = 70;
  event_type = "run.completed";
  status = "completed";
  result = some (obj end);
  error_code = none;
  occurred_at = str "t2";
}

abbrev fresh : ℕ → ℕ
fresh n = 500

abbrev first : Delivery
first = new_delivery subscription 500 1000 70 2 "run.completed" payload

enqueued : (enqueue_terminal (some owner) home fresh 1000 trace idle).0 ≡ ok (first ∷ [])
unfolding program
enqueued = refl

enqueue_terminal-repeated_example :
    enqueue_terminal
      (some owner)
      home
      (λ n. 501)
      2000
      trace
      (enqueue_terminal (some owner) home fresh 1000 trace idle).1
    ≡ (ok (first ∷ []), (enqueue_terminal (some owner) home fresh 1000 trace idle).1)
enqueue_terminal-repeated_example =
    enqueue_terminal-repeated owner home fresh (λ n. 501) 1000 2000 trace idle (first ∷ []) enqueued

-- The delivery after its second claim, while the first worker still waits for its answer.
abbrev reclaimed : Delivery
reclaimed = record first { state = delivering; attempt_count = 2; next_attempt_at = 60000000 }

abbrev late : Completion
late = record {
  delivery_id = 500;
  attempt_count = 1;
  state = failed;
  next_attempt_at = none;
  status_code = some 400;
  error = some "http_permanent_failure";
}

abbrev busy : Outbox
busy = record { subscriptions = subscription ∷ []; deliveries = reclaimed ∷ [] }

finish_stale_example : finish 61000000 late busy ≡ busy
finish_stale_example = finish_stale 61000000 late busy (inr (inr (omega arith)), tt)

abbrev config : Config
config = record {
  urlsplit = λ url. some (record {
    scheme = "https";
    hostname = some "hooks.example";
    username = none;
    password = none;
    port = some none;
    fragment = "";
  });
  allowed_origins = "https://hooks.example/" ∷ [];
  max_attempts = 5;
  batch_size = 20;
  lease_seconds = 30;
}

abbrev claim : Claim
claim = record {
  id = 500;
  target_url = "https://hooks.example/x";
  signing_key_id = 41;
  payload = payload;
  attempt_count = 1;
}

deliver-IsDecided_example :
    IsDecided config claim 1000 (response 503) (deliver config 1000 (λ c. response 503) claim)
deliver-IsDecided_example = deliver-IsDecided config 1000 (λ c. response 503) claim

abbrev over : Delivery
over = record first { id = 499; event_sequence = 1; state = delivered; attempt_count = 1 }

abbrev mixed : Outbox
mixed = record { subscriptions = subscription ∷ []; deliveries = first ∷ over ∷ [] }

dispatch_once-settled_example :
    find
      (has_id 499)
      (dispatch_once config (λ n. false) 5000 (λ c. response 200) (λ c. 6000) mixed).1.deliveries
    ≡ some over
dispatch_once-settled_example =
    dispatch_once-settled config (λ n. false) 5000 (λ c. response 200) (λ c. 6000) mixed 499 over
      refl (refl, (refl, tt)) refl

claim_due-IsClaim_example :
    All
      (IsClaim mixed.subscriptions
        (λ d. (find (has_id d.id) mixed.deliveries ≡ some d) × (is_due (λ n. false) 5000 d ≡ true)))
      (claim_due 30 (λ n. false) 5000 20 mixed).0
claim_due-IsClaim_example = claim_due-IsClaim 30 (λ n. false) 5000 20 mixed (refl, (refl, tt))
