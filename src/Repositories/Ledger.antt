-- ===== src/Repositories/Ledger.antt =====
-- app/repositories/ledger.py and app/services/ledger.py: entries are only ever added.
use paycore_backend.Base.{ℕ, String, List, ◌∷◌, ◌==◌}
use paycore_backend.Base.Table.{select, oldest_first}
use paycore_backend.Repositories.Listing.{page}
use paycore_backend.Models.Rows.{LedgerEntry, EntryType, debit, credit}
use paycore_backend.Database.{Books, Db}
use paycore_backend.Session.{Env, Action, pure, modify_books, uuid4, ◌>>=◌, ◌>>◌}

unfoldable pub add_entry : LedgerEntry → Books → Books
add_entry e b = record b { ledger_entries = e ∷ b.ledger_entries }

unfoldable pub create_entry : Env → ℕ → ℕ → EntryType → ℕ → String → ℕ → Action LedgerEntry
unfolding add_entry
create_entry env transaction_id wallet_id entry_type amount currency balance_after = do
  id ← uuid4 env
  let entry : LedgerEntry = record {
    id = id;
    transaction_id = transaction_id;
    wallet_id = wallet_id;
    entry_type = entry_type;
    amount = amount;
    currency = currency;
    balance_after = balance_after;
    created_at = env.now;
  }
  modify_books (add_entry entry)
  pure entry

-- Both entries of a transaction, oldest first.
unfoldable pub get_by_transaction : ℕ → Db → List LedgerEntry
get_by_transaction t db = oldest_first (select (λ e. e.transaction_id == t) db.ledger_entries)

-- A page of the wallet's entries, newest first, and the number of them all.
unfoldable pub get_by_wallet : ℕ → ℕ → ℕ → Db → List LedgerEntry × ℕ
get_by_wallet w limit offset db =
    page limit offset (select (λ e. e.wallet_id == w) db.ledger_entries)

-- `LedgerService.post_double_entry`
unfoldable pub post_double_entry :
    Env → ℕ → ℕ → ℕ → ℕ → String → ℕ → ℕ → Action (LedgerEntry × LedgerEntry)
unfolding create_entry
post_double_entry env transaction_id debit_wallet_id credit_wallet_id amount currency
      debit_balance_after credit_balance_after =
    do
      d ← create_entry env transaction_id debit_wallet_id debit amount currency debit_balance_after
      c ←
          create_entry env transaction_id credit_wallet_id credit amount currency
            credit_balance_after
      pure (d, c)
