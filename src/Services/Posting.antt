-- ===== src/Services/Posting.antt =====
-- The atomic posting of a movement between two locked wallets, which transfers and merchant
-- payments spell out alike: transaction, ledger entries, balances, COMMIT, and the answer to a
-- concurrent request that used the same idempotency key.
use Prim.Native.String.{◌++◌}
use paycore_backend.Base.{ℕ, ◌+◌, ◌-◌, String, false, Option, none, some}
use paycore_backend.Core.Errors.{integrity}
use paycore_backend.Models.Transaction.{Transaction, TransactionType, completed}
use paycore_backend.Models.Rows.{Wallet}
use paycore_backend.Session.{
  Env, Action, pure, raise, query, on_integrity, commit, rollback, uuid4, ◌>>=◌, ◌>>◌,
}
use paycore_backend.Database.{ask}
use paycore_backend.Repositories.Wallet.{update_balance}
use paycore_backend.Repositories.Transaction.{create, get_by_key_if_given}
use paycore_backend.Repositories.Ledger.{post_double_entry}

pub data Outcome : Type 0 where
  posted : Transaction → Outcome
  replayed : Transaction → Outcome

unfoldable pub txn_reference : String → String
txn_reference digits = "txn_" ++ digits

-- The record that both services create: COMPLETED from the start.
unfoldable pub movement_record :
    Env → ℕ → ℕ → ℕ → TransactionType → Wallet → Wallet → ℕ → Option String → Transaction
unfolding txn_reference
movement_record env id reference_uuid user_id type source destination amount idempotency_key =
    record {
      id = id;
      reference = txn_reference (env.hex12 reference_uuid);
      type = type;
      status = completed;
      amount = amount;
      currency = source.currency;
      source_wallet_id = some source.id;
      destination_wallet_id = some destination.id;
      initiated_by_user_id = user_id;
      provider_reference = none;
      idempotency_key = idempotency_key;
      extra_data = none;
      failure_reason = none;
      risk_flagged = false;
      created_at = env.now;
    }

-- The body of the `try`.
unfoldable pub write_movement :
    Env → ℕ → TransactionType → Wallet → Wallet → ℕ → Option String → Action Outcome
unfolding movement_record post_double_entry update_balance
write_movement env user_id type source destination amount idempotency_key = do
  let source_balance_after = source.balance - amount
  let destination_balance_after = destination.balance + amount
  reference_uuid ← uuid4 env
  id ← uuid4 env
  txn ←
      create (
        movement_record env id reference_uuid user_id type source destination amount
          idempotency_key)
  post_double_entry env txn.id source.id destination.id amount source.currency source_balance_after
      destination_balance_after
  update_balance source source_balance_after
  update_balance destination destination_balance_after
  commit
  pure (posted txn)

-- `except IntegrityError`
unfoldable pub replay_key : Option String → Action Outcome
unfolding get_by_key_if_given
replay_key idempotency_key = do
  rollback
  found ← query (ask (get_by_key_if_given idempotency_key))
  elim found [ none ↦ raise integrity | some t ↦ pure (replayed t) ]

unfoldable pub post_movement :
    Env → ℕ → TransactionType → Wallet → Wallet → ℕ → Option String → Action Outcome
post_movement env user_id type source destination amount idempotency_key =
    on_integrity (write_movement env user_id type source destination amount idempotency_key)
      (replay_key idempotency_key)
