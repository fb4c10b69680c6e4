-- ===== src/Services/MerchantPayment/Checks.antt =====
-- The reads and guards of `MerchantPaymentService.initiate_payment`, up to its first write.
use paycore_backend.Base.{ℕ, String, not, Option, none, some, ◌==◌}
use paycore_backend.Core.Errors.{not_found, merchant, forbidden, validation}
use paycore_backend.Models.Transaction.{Transaction}
use paycore_backend.Models.Rows.{User, Wallet, Merchant}
use paycore_backend.Database.{Query, answer, or_raise, or_raise_unless, raise_if, ask, ◌>>=◌, ◌>>◌}
use paycore_backend.Session.{Env}
use paycore_backend.Repositories.Wallet.{get_by_user_id}
use paycore_backend.Repositories.Transaction.{get_by_key_if_given}
use paycore_backend.Repositories.People.{get_merchant_by_id}
use paycore_backend.Services.Fraud.{check_merchant_payment}
use paycore_backend.Services.Locking.{Plan, existing, lock_funded}

unfoldable pub resolve_merchant : ℕ → Query Merchant
resolve_merchant merchant_id = do
  found ← ask (get_merchant_by_id merchant_id)
  profile ← or_raise found (not_found merchant)
  raise_if (not profile.is_active) forbidden
  answer profile

-- Self-payment guard, payer's wallet, merchant's wallet, in this order.
unfoldable pub resolve_wallets : User → Merchant → Query (Wallet × Wallet)
resolve_wallets payer profile = do
  raise_if (payer.id == profile.user_id) (validation "SELF_PAYMENT")
  payer_found ← ask (get_by_user_id payer.id)
  payer_wallet ← or_raise_unless (λ w. w.is_active) payer_found forbidden
  merchant_found ← ask (get_by_user_id profile.user_id)
  merchant_wallet ← or_raise_unless (λ w. w.is_active) merchant_found forbidden
  answer (payer_wallet, merchant_wallet)

unfoldable pub check_and_lock : Env → User → Wallet → Wallet → ℕ → Option Transaction → Query Plan
check_and_lock env payer source destination amount (some t) = answer (existing t)
check_and_lock env payer source destination amount none = do
  check_merchant_payment env payer amount
  lock_funded source.id destination.id amount

unfoldable pub payment_plan : Env → User → ℕ → ℕ → Option String → Query (Merchant × Plan)
payment_plan env payer merchant_id amount idempotency_key = do
  profile ← resolve_merchant merchant_id
  (source, destination) ← resolve_wallets payer profile
  used ← ask (get_by_key_if_given idempotency_key)
  plan ← check_and_lock env payer source destination amount used
  answer (profile, plan)
