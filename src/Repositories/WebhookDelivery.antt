-- ===== src/Repositories/WebhookDelivery.antt =====
-- app/repositories/webhook_delivery.py. The payload of a delivery is left out, and the
-- primary key of a new one is not checked.
use paycore_backend.Base.{ℕ, String, Bool, false, true, ◌&&◌, Option, none, some, List, ◌∷◌, leb}
use paycore_backend.Base.Table.{get, put, take, drop, length}
use paycore_backend.Models.Rows.{WebhookDelivery, WebhookDeliveryStatus, pending}
use paycore_backend.Database.{Db}
use paycore_backend.Session.{Env, Action, pure, modify, uuid4, ◌>>=◌, ◌>>◌}

abbrev pub delivery_id : WebhookDelivery → ℕ
delivery_id d = d.id

abbrev pub is_pending : WebhookDeliveryStatus → Bool
is_pending pending = true
is_pending _ = false

unfoldable pub new_delivery : ℕ → ℕ → ℕ → String → WebhookDelivery
new_delivery id merchant_id transaction_id event_type = record {
  id = id;
  merchant_id = merchant_id;
  transaction_id = transaction_id;
  event_type = event_type;
  status = pending;
  attempt_count = 0;
  next_retry_at = none;
  last_response_code = none;
  last_error = none;
}

unfoldable pub create_delivery : Env → ℕ → ℕ → String → Action ℕ
unfolding new_delivery
create_delivery env merchant_id transaction_id event_type = do
  id ← uuid4 env
  modify (λ db. record db {
    webhook_deliveries =
        new_delivery id merchant_id transaction_id event_type ∷ db.webhook_deliveries;
  })
  pure id

unfoldable pub get_delivery_by_id : ℕ → Db → Option WebhookDelivery
get_delivery_by_id i db = get delivery_id i db.webhook_deliveries

-- `next_retry_at <= now`, false of NULL.
abbrev pub is_due : ℕ → Option ℕ → Bool
is_due now none = false
is_due now (some at) = leb at now

-- The condition of the retry sweep.
abbrev pub is_retriable : ℕ → WebhookDelivery → Bool
is_retriable now d = is_pending d.status && is_due now d.next_retry_at

unfoldable pub put_delivery : WebhookDelivery → Action WebhookDelivery
put_delivery d = do
  modify (λ db. record db { webhook_deliveries = put delivery_id d db.webhook_deliveries })
  pure d

unfoldable pub update_delivery_result :
    WebhookDelivery
    → WebhookDeliveryStatus
    → ℕ
    → Option ℕ
    → Option ℕ
    → Option String
    → Action WebhookDelivery
update_delivery_result d status attempt_count next_retry_at last_response_code last_error =
    put_delivery (record d {
      status = status;
      attempt_count = attempt_count;
      next_retry_at = next_retry_at;
      last_response_code = last_response_code;
      last_error = last_error;
    })

-- Newest first, as the table is kept.
unfoldable pub list_deliveries : ℕ → ℕ → Db → List WebhookDelivery
list_deliveries limit offset db = take limit (drop offset db.webhook_deliveries)

unfoldable pub count_deliveries : Db → ℕ
count_deliveries db = length db.webhook_deliveries
