-- ===== src/Workers/Webhooks.antt =====
-- app/workers/webhook_tasks.py: the task that posts a delivery to its merchant, and the retry sweep.
use Prim.Native.String.{◌++◌}
use paycore_backend.Base.{
  ℕ, ◌+◌, ◌*◌, String, Bool, ◌&&◌, Option, none, some, List, [], ◌∷◌, leb, ltb, if◌then◌else◌,
}
use paycore_backend.Base.Table.{get, select, take, length, get_elem?}
use paycore_backend.Core.Errors.{index_error}
use paycore_backend.Models.Rows.{
  Merchant, WebhookDelivery, WebhookDeliveryStatus, delivered, failed, ActorType,
}
use paycore_backend.Database.{ask}
use paycore_backend.Session.{
  Env, Action, PostAnswer, responded, raised, pure, raise, query, commit, delay, post_webhook,
  request, deliver_merchant_webhook, ◌>>=◌, ◌>>◌,
}
use paycore_backend.Repositories.WebhookDelivery.{get_delivery_by_id, put_delivery, is_retriable}
use paycore_backend.Repositories.People.{merchant_id}
use paycore_backend.Services.Audit
use paycore_backend.Services.WebhookDelivery.{is_given}

-- _RETRY_DELAYS_MINUTES
abbrev pub retry_delays_minutes : List ℕ
retry_delays_minutes = 0 ∷ 2 ∷ 4 ∷ 8 ∷ 16 ∷ 32 ∷ []

unfoldable pub max_attempts : ℕ
unfolding length
max_attempts = length retry_delays_minutes

-- `Response.is_success`: the codes 200 to 299.
abbrev pub is_success : ℕ → Bool
is_success code = leb 200 code && ltb code 300

-- MAX_ATTEMPTS is reached: FAILED, COMMIT, the audit trail.
unfoldable pub exhaust : Env → WebhookDelivery → Option ℕ → String → Action (Unit {0})
exhaust env d response_code error_msg = do
  put_delivery (record d {
    status = failed;
    attempt_count = d.attempt_count + 1;
    last_response_code = response_code;
    last_error = some error_msg;
    next_retry_at = none;
  })
  commit
  Audit.log env none ActorType.system "webhook_delivery.failed" "webhook_delivery" d.id

-- The next retry, by the delay that stands at the number of attempts.
unfoldable pub schedule : Env → WebhookDelivery → Option ℕ → String → Option ℕ → Action (Unit {0})
schedule env d response_code error_msg none = raise index_error
schedule env d response_code error_msg (some delay_minutes) = do
  put_delivery (record d {
    attempt_count = d.attempt_count + 1;
    last_response_code = response_code;
    last_error = some error_msg;
    next_retry_at = some (env.now + delay_minutes * 60);
  })
  commit

unfoldable pub attempt_failed : Env → WebhookDelivery → Option ℕ → String → Action (Unit {0})
attempt_failed env d response_code error_msg =
    if leb max_attempts (d.attempt_count + 1)
    then exhaust env d response_code error_msg
    else schedule env d response_code error_msg
        (get_elem? retry_delays_minutes (d.attempt_count + 1))

unfoldable pub attempt_succeeded : WebhookDelivery → ℕ → Action (Unit {0})
attempt_succeeded d response_code = do
  put_delivery (record d {
    status = delivered;
    attempt_count = d.attempt_count + 1;
    last_response_code = some response_code;
    next_retry_at = none;
  })
  commit

unfoldable pub take_answer : Env → WebhookDelivery → PostAnswer → Action (Unit {0})
take_answer env d (responded code) =
    if is_success code
    then attempt_succeeded d code
    else attempt_failed env d (some code) ("HTTP " ++ env.decimal code)
take_answer env d (raised error_msg) = attempt_failed env d none error_msg

abbrev pub or_empty : Option String → String
or_empty none = ""
or_empty (some s) = s

-- The merchant is read again; `session.get` does not look at `deleted_at`.
unfoldable pub deliver_to : Env → WebhookDelivery → Option Merchant → Action (Unit {0})
deliver_to env d none = do
  put_delivery
      (record d { status = failed; last_error = some "Merchant has no webhook URL configured." })
  commit
deliver_to env d (some m) =
    if is_given m.webhook_url
    then (do
      answer ← post_webhook env (record {
        url = or_empty m.webhook_url;
        delivery_id = d.id;
        secret = or_empty m.webhook_secret;
      })
      take_answer env d answer)
    else (do
      put_delivery (record d {
        status = failed;
        last_error = some "Merchant has no webhook URL configured.";
      })
      commit)

-- A DELIVERED delivery is left alone; a FAILED one is not.
unfoldable pub deliver_at : Env → WebhookDelivery → WebhookDeliveryStatus → Action (Unit {0})
deliver_at env d delivered = pure tt
deliver_at env d _ = do
  found ← query (ask (λ db. get merchant_id d.merchant_id db.merchants))
  deliver_to env d found

unfoldable pub delivery_found : Env → Option WebhookDelivery → Action (Unit {0})
delivery_found env none = pure tt
delivery_found env (some d) = deliver_at env d d.status

-- The Celery task; its session is its own.
unfoldable pub deliver_webhook : Env → ℕ → Action (Unit {0})
deliver_webhook env id =
    request (do found ← query (ask (get_delivery_by_id id)); delivery_found env found)

unfoldable pub enqueue_deliveries : Env → List WebhookDelivery → Action (Unit {0})
enqueue_deliveries env [] = pure tt
enqueue_deliveries env (d ∷ rest) = do
  delay env (deliver_merchant_webhook d.id)
  enqueue_deliveries env rest

unfoldable pub retry_pending_webhooks : Env → Action (Unit {0})
retry_pending_webhooks env = do
  due ← query (ask (λ db. take 100 (select (is_retriable env.now) db.webhook_deliveries)))
  enqueue_deliveries env due
