-- ===== src/Books.antt =====
-- What keeps the tables of money consistent. For each wallet the balance, the debits of the ledger
-- and the amounts held for withdrawals in flight add up to the credits of the ledger.
pub mod Movement
pub mod Total
pub mod Steps
pub mod Openings
use paycore_backend.Base.{
  ℕ, ◌+◌, ◌≡◌, ◌⊎◌, Bool, true, false, ◌&&◌, ◌||◌, Option, none, some, List, ◌==◌, points_to,
  if◌then◌else◌,
}
use paycore_backend.Base.Table.{sum_by, get, IsKeyed, All}
use paycore_backend.Models.Transaction.{
  Transaction, TransactionStatus, pending, processing, is_status,
}
use paycore_backend.Models.Rows.{Wallet, LedgerEntry, EntryType, debit, credit}
use paycore_backend.Database.{Books}
use paycore_backend.Repositories.Wallet.{wallet_id}
use paycore_backend.Repositories.Transaction.{transaction_id}

abbrev credit_amount : EntryType → ℕ → ℕ
credit_amount credit n = n
credit_amount debit n = 0

abbrev debit_amount : EntryType → ℕ → ℕ
debit_amount credit n = 0
debit_amount debit n = n

abbrev pub credit_to : ℕ → LedgerEntry → ℕ
credit_to w e = if e.wallet_id == w then credit_amount e.entry_type e.amount else 0

abbrev pub debit_from : ℕ → LedgerEntry → ℕ
debit_from w e = if e.wallet_id == w then debit_amount e.entry_type e.amount else 0

-- A transaction is in flight while its status is PENDING or PROCESSING.
abbrev pub in_flight : TransactionStatus → Bool
in_flight pending = true
in_flight processing = true
in_flight _ = false

-- What a transaction in flight holds back from its source wallet.
abbrev pub hold_on : ℕ → Transaction → ℕ
hold_on w t = if points_to t.source_wallet_id w && in_flight t.status then t.amount else 0

abbrev pub balance_or_zero : Option Wallet → ℕ
balance_or_zero none = 0
balance_or_zero (some w) = w.balance

unfoldable pub balance_of : ℕ → Books → ℕ
balance_of w b = balance_or_zero (get wallet_id w b.wallets)

-- The row of a wallet's id gives its balance.
pub balance_of-get :
    (w : Wallet) (b : Books) → get wallet_id w.id b.wallets ≡ some w → balance_of w.id b ≡ w.balance
unfolding balance_of
balance_of-get w b e = rw e

unfoldable pub credits : ℕ → Books → ℕ
credits w b = sum_by (credit_to w) b.ledger_entries

unfoldable pub debits : ℕ → Books → ℕ
debits w b = sum_by (debit_from w) b.ledger_entries

unfoldable pub holds : ℕ → Books → ℕ
holds w b = sum_by (hold_on w) b.transactions

-- The accounting equation of one wallet.
abbrev pub Reconciles : Books → ℕ → Type 0
Reconciles b w = balance_of w b + debits w b + holds w b ≡ credits w b

-- A transaction in flight has a source or a destination, never both.
abbrev pub OneSided : Transaction → Type 0
OneSided t =
    (in_flight t.status ≡ false) ⊎ (t.source_wallet_id ≡ none) ⊎ (t.destination_wallet_id ≡ none)

pub record IsSound (b : Books) : Type 0 where
  pub wallets_keyed : IsKeyed wallet_id b.wallets
  pub transactions_keyed : IsKeyed transaction_id b.transactions
  pub one_sided : All OneSided b.transactions
  pub reconciles : (w : ℕ) → Reconciles b w
