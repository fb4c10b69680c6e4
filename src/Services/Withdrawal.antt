-- ===== src/Services/Withdrawal.antt =====
-- app/services/withdrawal.py: withdrawals. `Checks` is `initiate_withdrawal` up to its first write,
-- `Payout` the handlers of a payout's result, `Execution` the dispatch of a payout to Paystack.
mod Checks
pub mod Payout
pub mod Execution
unfoldable pub use Checks.{get_active_withdrawal, require_owned, withdrawal_plan}
use Prim.Native.String.{◌++◌}
use paycore_backend.Base.{ℕ, ◌-◌, String, false, Option, none, some}
use paycore_backend.Models.Transaction.{Transaction, withdrawal, pending, bank_account_id}
use paycore_backend.Models.Rows.{User, ActorType, Wallet}
use paycore_backend.Session.{
  Env, Action, pure, query, uuid4, commit, delay, attempt, process_withdrawal, ◌>>=◌, ◌>>◌,
}
use paycore_backend.Repositories.Wallet.{update_balance}
use paycore_backend.Repositories.Transaction.{create}
use paycore_backend.Services.Audit

unfoldable pub withdrawal_record : Env → ℕ → ℕ → User → Wallet → ℕ → ℕ → Transaction
withdrawal_record env id reference_uuid owner wallet account amount = record {
  id = id;
  reference = "txn_" ++ env.hex reference_uuid;
  type = withdrawal;
  status = pending;
  amount = amount;
  currency = wallet.currency;
  source_wallet_id = some wallet.id;
  destination_wallet_id = none;
  initiated_by_user_id = owner.id;
  provider_reference = none;
  idempotency_key = none;
  extra_data = some (bank_account_id account);
  failure_reason = none;
  risk_flagged = false;
  created_at = env.now;
}

-- Steps 6 to 8: the PENDING record, the hold on the balance, COMMIT.
unfoldable pub write_withdrawal : Env → User → Wallet → ℕ → ℕ → Action Transaction
write_withdrawal env owner wallet account amount = do
  reference_uuid ← uuid4 env
  id ← uuid4 env
  txn ← create (withdrawal_record env id reference_uuid owner wallet account amount)
  update_balance wallet (wallet.balance - amount)
  commit
  pure txn

-- Step 9 and the audit trail; a task that cannot be enqueued is left to reconciliation.
unfoldable pub report_withdrawal : Env → User → Transaction → Action Transaction
report_withdrawal env owner txn = do
  attempt (delay env (process_withdrawal txn.id))
  Audit.log env (some owner.id) ActorType.user "withdrawal.initiated" "transaction" txn.id
  pure txn

unfoldable pub initiate_withdrawal : Env → User → ℕ → ℕ → Action Transaction
initiate_withdrawal env owner account amount = do
  wallet ← query (withdrawal_plan env owner account amount)
  txn ← write_withdrawal env owner wallet account amount
  report_withdrawal env owner txn
