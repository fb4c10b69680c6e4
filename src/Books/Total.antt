-- ===== src/Books/Total.antt =====
-- The money in all wallets.
use paycore_backend.Base.{ℕ, ◌+◌, ◌-◌, ◌≤◌, ◌≡◌, ◌≢◌, some, arith, sym, ◌∙◌}
use paycore_backend.Base.Table.{get, put, sum_by, sum_by-put, get-put_ne}
use paycore_backend.Models.Transaction.{Transaction}
use paycore_backend.Models.Rows.{Wallet}
use paycore_backend.Database.{Books}
use paycore_backend.Session.{Env}
use paycore_backend.Repositories.Wallet.{wallet_id, put_wallet}
use paycore_backend.Repositories.Transaction.{insert_transaction}
use paycore_backend.Repositories.Ledger.{add_entry}
use paycore_backend.Books.Movement.{moved_books}

abbrev balance_column : Wallet → ℕ
balance_column w = w.balance

unfoldable pub total_balance : Books → ℕ
total_balance b = sum_by balance_column b.wallets

-- Writing a wallet that is there changes the total by the change of its balance.
pub total_balance-put_wallet :
    (w : Wallet) (b : Books) {old : Wallet}
    → get wallet_id w.id b.wallets ≡ some old
    → total_balance (put_wallet w b) + old.balance ≡ total_balance b + w.balance
unfolding total_balance put_wallet
total_balance-put_wallet w b {old} e = sum_by-put wallet_id balance_column w b.wallets {old = old} e

pub total_balance-moved :
    (env : Env) (n : ℕ) (t : Transaction) (source destination : Wallet) (b : Books)
    → get wallet_id source.id b.wallets ≡ some source
    → get wallet_id destination.id b.wallets ≡ some destination
    → source.id ≢ destination.id
    → t.amount ≤ source.balance
    → total_balance (moved_books env n t source destination b) ≡ total_balance b
unfolding moved_books total_balance put_wallet add_entry insert_transaction
total_balance-moved env n t source destination b here there apart covered =
    let paid : Wallet = record source { balance = source.balance - t.amount } in
    let credited : Wallet = record destination { balance = destination.balance + t.amount } in
    let first = sum_by-put wallet_id balance_column paid b.wallets here in
    let second =
      sum_by-put wallet_id balance_column credited (put wallet_id paid b.wallets)
        (get-put_ne wallet_id destination.id paid b.wallets (λ e. apart (sym e)) ∙ there) in
    omega (arith, first, second)
