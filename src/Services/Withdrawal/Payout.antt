-- ===== src/Services/Withdrawal/Payout.antt =====
-- app/services/withdrawal.py: the handlers of a payout's result.
use Prim.Native.String.{◌++◌}
use paycore_backend.Base.{ℕ, ◌+◌, String, ◌||◌, Option, none, some, str_eq, if◌then◌else◌}
use paycore_backend.Models.Transaction.{
  Transaction, TransactionStatus, processing, completed, failed,
}
use paycore_backend.Models.Rows.{Wallet, ActorType, debit}
use paycore_backend.Database.{ask}
use paycore_backend.Session.{Env, Action, pure, query, commit, ◌>>=◌, ◌>>◌}
use paycore_backend.Repositories.Wallet.{lock_for_update, update_balance}
use paycore_backend.Repositories.Transaction.{get_by_reference, update_status}
use paycore_backend.Repositories.Ledger.{create_entry}
use paycore_backend.Services.Audit

-- The guards that both results share: only a PROCESSING transaction with a source wallet that is
-- there is handled.
unfoldable pub on_wallet :
    (Transaction → Wallet → Action (Unit {0})) → Transaction → Option Wallet → Action (Unit {0})
on_wallet handle txn none = pure tt
on_wallet handle txn (some wallet) = handle txn wallet

unfoldable pub on_source_wallet :
    (Transaction → Wallet → Action (Unit {0})) → Transaction → Option ℕ → Action (Unit {0})
on_source_wallet handle txn none = pure tt
on_source_wallet handle txn (some wallet_id) = do
  wallet ← query (ask (lock_for_update wallet_id))
  on_wallet handle txn wallet

unfoldable pub on_status :
    (Transaction → Wallet → Action (Unit {0})) → Transaction → TransactionStatus → Action (Unit {0})
on_status handle txn processing = on_source_wallet handle txn txn.source_wallet_id
on_status handle txn _ = pure tt

unfoldable pub on_processing :
    (Transaction → Wallet → Action (Unit {0})) → Option Transaction → Action (Unit {0})
on_processing handle none = pure tt
on_processing handle (some txn) = on_status handle txn txn.status

-- The DEBIT entry for the hold, then COMPLETED.
unfoldable pub settle_payout : Env → Transaction → Wallet → Action (Unit {0})
settle_payout env txn wallet = do
  create_entry env txn.id wallet.id debit txn.amount txn.currency wallet.balance
  update_status txn completed none none
  commit
  Audit.log env (some txn.initiated_by_user_id) ActorType.system "withdrawal.completed"
      "transaction" txn.id

-- The held amount goes back, then FAILED.
unfoldable pub return_payout : Env → String → Transaction → Wallet → Action (Unit {0})
return_payout env transfer_code txn wallet = do
  update_balance wallet (wallet.balance + txn.amount)
  update_status txn failed (some ("Paystack transfer failed or reversed: " ++ transfer_code)) none
  commit
  Audit.log env (some txn.initiated_by_user_id) ActorType.system "withdrawal.failed" "transaction"
      txn.id

unfoldable pub process_payout_success : Env → String → Action (Unit {0})
process_payout_success env reference = do
  found ← query (ask (get_by_reference reference))
  on_processing (settle_payout env) found

unfoldable pub process_payout_failure : Env → String → String → Action (Unit {0})
process_payout_failure env reference transfer_code = do
  found ← query (ask (get_by_reference reference))
  on_processing (return_payout env transfer_code) found

-- `PaystackWebhookService.process_transfer_result`
unfoldable pub process_transfer_result : Env → String → String → String → Action (Unit {0})
process_transfer_result env event_type reference transfer_code =
    if str_eq reference ""
    then pure tt
    else if str_eq event_type "transfer.success"
    then process_payout_success env reference
    else if str_eq event_type "transfer.failed" || str_eq event_type "transfer.reversed"
    then process_payout_failure env reference transfer_code
    else pure tt
