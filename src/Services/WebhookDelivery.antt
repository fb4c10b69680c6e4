-- ===== src/Services/WebhookDelivery.antt =====
-- app/services/webhook_delivery.py. The payload is left out.
use paycore_backend.Base.{
  ℕ, ◌+◌, String, Bool, false, not, Option, none, some, str_eq, if◌then◌else◌,
}
use paycore_backend.Models.Rows.{Merchant, WebhookDelivery, delivered, failed}
use paycore_backend.Session.{
  Env, Action, pure, commit, delay, attempt, deliver_merchant_webhook, ◌>>=◌, ◌>>◌,
}
use paycore_backend.Repositories.WebhookDelivery.{create_delivery, update_delivery_result}

-- The truth value of an optional text.
abbrev pub is_given : Option String → Bool
is_given none = false
is_given (some s) = not (str_eq s "")

-- A merchant without a URL is skipped; a task that cannot be enqueued is only logged.
unfoldable pub create_and_enqueue : Env → Merchant → ℕ → String → Action (Unit {0})
create_and_enqueue env merchant transaction_id event_type =
    if is_given merchant.webhook_url
    then (do
      id ← create_delivery env merchant.id transaction_id event_type
      commit
      attempt (delay env (deliver_merchant_webhook id)))
    else pure tt

unfoldable pub mark_delivered : WebhookDelivery → ℕ → Action WebhookDelivery
mark_delivered delivery response_code =
    update_delivery_result delivery delivered (delivery.attempt_count + 1) none (some response_code)
      none

unfoldable pub mark_failed : WebhookDelivery → String → Option ℕ → Action WebhookDelivery
mark_failed delivery error response_code =
    update_delivery_result delivery failed (delivery.attempt_count + 1) none response_code
      (some error)
