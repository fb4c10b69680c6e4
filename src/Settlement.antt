-- ===== src/Settlement.antt =====
-- What a request that moves money between two wallets may do, as an independent specification:
-- nothing, or one whole movement. Services/Transfer and Services/MerchantPayment implement it.
pub mod Plan
pub mod Posting
pub mod Transfer
pub mod MerchantPayment
pub mod Laws
pub mod Limits
pub mod Idempotency
pub mod Conservation
use Prim.Native.String.{◌++◌}
use paycore_backend.Base.{ℕ, ◌≤◌, ◌≡◌, ◌≢◌, ◌⊎◌, false, Option, none, some, String, suc, ◌+◌}
use paycore_backend.Base.Table.{get}
use paycore_backend.Core.Errors.{AppError, broker_unavailable, Result, ok, err}
use paycore_backend.Models.Transaction.{Transaction, TransactionType, completed}
use paycore_backend.Models.Rows.{Wallet}
use paycore_backend.Database.{Books}
use paycore_backend.Session.{Env, Session}
use paycore_backend.Repositories.Wallet.{wallet_id}
use paycore_backend.Repositories.Transaction.{conflicts, get_by_key_if_given}
use paycore_backend.Books.Movement.{moved_books}

-- Two distinct wallets of the books, of which the first is the user's and covers the amount.
pub record IsFunded (user_id amount : ℕ) (source destination : Wallet) (b : Books) : Type 0 where
  pub source_there : get wallet_id source.id b.wallets ≡ some source
  pub destination_there : get wallet_id destination.id b.wallets ≡ some destination
  pub owned : source.user_id ≡ user_id
  pub apart : source.id ≢ destination.id
  pub covered : amount ≤ source.balance

module _ (env : Env) (user_id : ℕ) (type : TransactionType) (amount : ℕ) (key : Option String)
    (s : Session) where
  -- The record of the movement, for the UUIDs that are drawn next.
  abbrev pub next_record : Wallet → Wallet → Transaction
  next_record source destination = record {
    id = env.uuid (s.drawn + 1);
    reference = "txn_" ++ env.hex12 (env.uuid s.drawn);
    type = type;
    status = completed;
    amount = amount;
    currency = source.currency;
    source_wallet_id = some source.id;
    destination_wallet_id = some destination.id;
    initiated_by_user_id = user_id;
    provider_reference = none;
    idempotency_key = key;
    extra_data = none;
    failure_reason = none;
    risk_flagged = false;
    created_at = env.now;
  }

  -- From the session `s`, the result `r` with the session `s'`.
  pub data Settles (r : Result Transaction) (s' : Session) : Type 0 where
    -- It raised, and the committed books are what they were.
    rejected : (e : AppError) → r ≡ err e → s'.committed.books ≡ s.committed.books → Settles r s'
    -- The key was used before: that transaction is the answer, and nothing is written.
    replayed :
        (t : Transaction)
        → get_by_key_if_given key s.committed ≡ some t
        → r ≡ ok t
        → s'.committed.books ≡ s.committed.books
        → Settles r s'
    -- All of the movement is committed; only the task broker can still fail after that.
    moved :
        (source destination : Wallet)
        → IsFunded user_id amount source destination s.committed.books
        → conflicts (next_record source destination) s.committed.transactions ≡ false
        → s'.committed.books
          ≡ moved_books env s.drawn
              (next_record source destination)
              source
              destination
              s.committed.books
        → (r ≡ ok (next_record source destination)) ⊎ (r ≡ err broker_unavailable)
        → Settles r s'
