-- ===== src/Services/PaystackWebhook.antt =====
-- app/services/paystack_webhook.py: `process_charge_success`, which credits a funded wallet.
use paycore_backend.Base.{ℕ, ◌+◌, String, Option, none, some, str_eq, if◌then◌else◌}
use paycore_backend.Models.Transaction.{
  Transaction, TransactionStatus, pending, processing, completed,
}
use paycore_backend.Models.Rows.{Wallet, ActorType, credit}
use paycore_backend.Database.{ask}
use paycore_backend.Session.{Env, Action, pure, query, commit, ◌>>=◌, ◌>>◌}
use paycore_backend.Repositories.Wallet.{lock_for_update, update_balance}
use paycore_backend.Repositories.Transaction.{get_by_provider_reference, update_status}
use paycore_backend.Repositories.Ledger.{create_entry}
use paycore_backend.Services.Audit

-- What the handler reads of Paystack's data; a missing reference is empty, a missing amount 0.
pub record ChargeData : Type 0 where
  pub status : String
  pub reference : String
  pub amount : ℕ

-- The wallet is locked: credit it, write the single CREDIT entry, complete, commit, report.
unfoldable pub credit_wallet : Env → ℕ → Transaction → Wallet → Action (Unit {0})
credit_wallet env amount txn wallet = do
  let new_balance = wallet.balance + amount
  update_balance wallet new_balance
  create_entry env txn.id wallet.id credit amount txn.currency new_balance
  update_status txn completed none none
  commit
  Audit.log env (some txn.initiated_by_user_id) ActorType.user "wallet.funded" "transaction" txn.id

unfoldable pub credit_locked : Env → ℕ → Transaction → Option Wallet → Action (Unit {0})
credit_locked env amount txn none = pure tt
credit_locked env amount txn (some wallet) = credit_wallet env amount txn wallet

unfoldable pub credit_destination : Env → ℕ → Transaction → Option ℕ → Action (Unit {0})
credit_destination env amount txn none = pure tt
credit_destination env amount txn (some wallet_id) = do
  wallet ← query (ask (lock_for_update wallet_id))
  credit_locked env amount txn wallet

-- Only a PENDING transaction is charged: it goes through PROCESSING. A COMPLETED one was credited
-- before, and any other status is unexpected; both are skipped.
unfoldable pub charge_at : Env → ℕ → Transaction → TransactionStatus → Action (Unit {0})
charge_at env amount txn pending = do
  started ← update_status txn processing none none
  credit_destination env amount started started.destination_wallet_id
charge_at env amount txn _ = pure tt

unfoldable pub charge_found : Env → ℕ → Option Transaction → Action (Unit {0})
charge_found env amount none = pure tt
charge_found env amount (some txn) = charge_at env amount txn txn.status

unfoldable pub process_charge_success : Env → ChargeData → Action (Unit {0})
process_charge_success env charge = if str_eq charge.reference "" then pure tt else do
  found ← query (get_by_provider_reference charge.reference)
  charge_found env charge.amount found
