-- ===== src/Services/MerchantPayment.antt =====
-- app/services/merchant_payment.py: payments to merchants.
mod Checks
unfoldable pub use Checks.{resolve_merchant, resolve_wallets, check_and_lock, payment_plan}
use paycore_backend.Base.{ℕ, String, Option, some}
use paycore_backend.Models.Transaction.{Transaction, merchant_payment}
use paycore_backend.Models.Rows.{User, ActorType, Wallet, Merchant}
use paycore_backend.Session.{Env, Action, pure, query, attempt, ◌>>=◌, ◌>>◌}
use paycore_backend.Services.Audit
use paycore_backend.Services.Fraud.{maybe_flag_merchant_payment}
use paycore_backend.Services.Locking.{Plan, existing, movement}
use paycore_backend.Services.Posting.{Outcome, posted, replayed, post_movement}
use paycore_backend.Services.WebhookDelivery.{create_and_enqueue}

-- After the commit: the risk flag, the merchant's webhook, the audit trail.
unfoldable pub report_payment : Env → User → Merchant → ℕ → Outcome → Action Transaction
report_payment env payer merchant amount (replayed t) = pure t
report_payment env payer merchant amount (posted txn) = do
  maybe_flag_merchant_payment env txn.id payer amount
  attempt (create_and_enqueue env merchant txn.id "payment.received")
  Audit.log env (some payer.id) ActorType.user "merchant_payment.completed" "transaction" txn.id
  pure txn

unfoldable pub carry_out : Env → User → ℕ → Option String → Merchant × Plan → Action Transaction
carry_out env payer amount idempotency_key (merchant, existing t) = pure t
carry_out env payer amount idempotency_key (merchant, movement source destination) = do
  outcome ← post_movement env payer.id merchant_payment source destination amount idempotency_key
  report_payment env payer merchant amount outcome

unfoldable pub initiate_payment : Env → User → ℕ → ℕ → Option String → Action Transaction
initiate_payment env payer merchant_id amount idempotency_key = do
  plan ← query (payment_plan env payer merchant_id amount idempotency_key)
  carry_out env payer amount idempotency_key plan
