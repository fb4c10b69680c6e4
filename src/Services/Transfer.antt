-- ===== src/Services/Transfer.antt =====
-- app/services/transfer.py: wallet-to-wallet transfers. `Checks` is everything up to the first write.
mod Checks
pub use Checks.{Recipient, by_id, by_email}
unfoldable pub use Checks.{find_recipient, resolve_wallets, check_and_lock, transfer_plan}
use paycore_backend.Base.{ℕ, String, Option, some}
use paycore_backend.Models.Transaction.{Transaction, transfer}
use paycore_backend.Models.Rows.{User, ActorType, Wallet}
use paycore_backend.Session.{Env, Action, pure, query, ◌>>=◌, ◌>>◌}
use paycore_backend.Services.Audit
use paycore_backend.Services.Fraud.{maybe_flag_rapid_transfers}
use paycore_backend.Services.Locking.{Plan, existing, movement}
use paycore_backend.Services.Posting.{Outcome, posted, replayed, post_movement}

-- After the commit: the risk flag, then the audit trail.
unfoldable pub report_transfer : Env → User → ℕ → Outcome → Action Transaction
report_transfer env sender sender_wallet_id (replayed t) = pure t
report_transfer env sender sender_wallet_id (posted txn) = do
  maybe_flag_rapid_transfers env txn.id sender_wallet_id
  Audit.log env (some sender.id) ActorType.user "transfer.completed" "transaction" txn.id
  pure txn

unfoldable pub carry_out : Env → User → ℕ → Option String → Plan → Action Transaction
carry_out env sender amount idempotency_key (existing t) = pure t
carry_out env sender amount idempotency_key (movement source destination) = do
  outcome ← post_movement env sender.id transfer source destination amount idempotency_key
  report_transfer env sender source.id outcome

unfoldable pub initiate_transfer : Env → User → Recipient → ℕ → Option String → Action Transaction
initiate_transfer env sender recipient amount idempotency_key = do
  plan ← query (transfer_plan env sender recipient amount idempotency_key)
  carry_out env sender amount idempotency_key plan
