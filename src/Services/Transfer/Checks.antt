-- ===== src/Services/Transfer/Checks.antt =====
-- The reads and guards of `TransferService.initiate_transfer`, up to its first write.
use paycore_backend.Base.{ℕ, String, Option, none, some, ◌==◌}
use paycore_backend.Core.Errors.{not_found, recipient, forbidden, validation}
use paycore_backend.Models.Transaction.{Transaction}
use paycore_backend.Models.Rows.{User, Wallet}
use paycore_backend.Database.{Db, Query, answer, or_raise_unless, raise_if, ask, ◌>>=◌, ◌>>◌}
use paycore_backend.Session.{Env}
use paycore_backend.Repositories.Wallet.{get_by_user_id}
use paycore_backend.Repositories.Transaction.{get_by_key_if_given}
use paycore_backend.Repositories.People.{get_user_by_id, get_user_by_email}
use paycore_backend.Services.Fraud.{check_transfer}
use paycore_backend.Services.Locking.{Plan, existing, lock_funded}

-- `TransferRequest` lets exactly one of the two through.
pub data Recipient : Type 0 where
  by_id : ℕ → Recipient
  by_email : String → Recipient

unfoldable pub find_recipient : Env → Recipient → Db → Option User
find_recipient env (by_id i) = get_user_by_id i
find_recipient env (by_email e) = get_user_by_email env e

-- Sender's wallet, recipient, self-transfer guard, recipient's wallet, in this order.
unfoldable pub resolve_wallets : Env → User → Recipient → Query (Wallet × Wallet)
resolve_wallets env sender to = do
  sender_found ← ask (get_by_user_id sender.id)
  sender_wallet ← or_raise_unless (λ w. w.is_active) sender_found forbidden
  user_found ← ask (find_recipient env to)
  receiver ← or_raise_unless (λ u. u.is_active) user_found (not_found recipient)
  raise_if (sender.id == receiver.id) (validation "SELF_TRANSFER")
  receiver_found ← ask (get_by_user_id receiver.id)
  recipient_wallet ← or_raise_unless (λ w. w.is_active) receiver_found forbidden
  answer (sender_wallet, recipient_wallet)

-- A key that was used already answers the request; else the fraud rules, the locks and the balance.
unfoldable pub check_and_lock : Env → User → Wallet → Wallet → ℕ → Option Transaction → Query Plan
check_and_lock env sender source destination amount (some t) = answer (existing t)
check_and_lock env sender source destination amount none = do
  check_transfer env sender source destination.id amount
  lock_funded source.id destination.id amount

unfoldable pub transfer_plan : Env → User → Recipient → ℕ → Option String → Query Plan
transfer_plan env sender to amount idempotency_key = do
  (source, destination) ← resolve_wallets env sender to
  used ← ask (get_by_key_if_given idempotency_key)
  check_and_lock env sender source destination amount used
