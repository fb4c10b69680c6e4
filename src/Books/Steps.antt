-- ===== src/Books/Steps.antt =====
-- The changes of the books that funding and withdrawing make, one step each, keep them sound.
use paycore_backend.Base.{ℕ, ◌+◌, ◌-◌, ◌≤◌, ◌≡◌, false, none, some, arith, inl, ◌==◌, if◌then◌else◌}
use paycore_backend.Base.Table.{
  get, put, sum_by, sum_by-put, get-put, put-IsKeyed, put-All, All, IsKeyed,
}
use paycore_backend.Models.Transaction.{Transaction}
use paycore_backend.Models.Rows.{Wallet, LedgerEntry, debit, credit}
use paycore_backend.Database.{Books}
use paycore_backend.Repositories.Wallet.{wallet_id, put_wallet}
use paycore_backend.Repositories.Transaction.{transaction_id, put_transaction, insert_transaction}
use paycore_backend.Repositories.Ledger.{add_entry}
use paycore_backend.Books.{
  IsSound, Reconciles, OneSided, in_flight, hold_on, balance_of, credits, debits, holds,
  balance_of-get,
}

abbrev pub with_balance : Wallet → ℕ → Wallet
with_balance w n = record w { balance = n }

-- An amount that is held goes out: a DEBIT entry takes the place of the hold.
unfoldable pub settled_books : Transaction → LedgerEntry → Books → Books
settled_books t e b = put_transaction t (add_entry e b)

-- An amount that is held comes back to its wallet.
unfoldable pub returned_books : Transaction → Wallet → Books → Books
returned_books t wallet b =
    put_transaction t (put_wallet (with_balance wallet (wallet.balance + t.amount)) b)

-- An amount is held for a new transaction.
unfoldable pub held_books : Transaction → Wallet → Books → Books
held_books t wallet b =
    put_wallet (with_balance wallet (wallet.balance - t.amount)) (insert_transaction t b)

-- Money comes in from outside, with a CREDIT entry.
unfoldable pub funded_books : Transaction → LedgerEntry → Wallet → Books → Books
funded_books t e wallet b =
    put_transaction t (add_entry e (put_wallet (with_balance wallet (wallet.balance + e.amount)) b))

-- A transaction that is not in flight holds nothing.
pub hold_on-landed : (t : Transaction) (i : ℕ) → in_flight t.status ≡ false → hold_on i t ≡ 0
hold_on-landed t i landed = ground arith

module _ (b : Books) (h : IsSound b) where
  -- A transaction is rewritten, and holds what it held.
  module _ (t old : Transaction) (there : get transaction_id t.id b.transactions ≡ some old) where
    restated-Reconciles : (i : ℕ) → hold_on i t ≡ hold_on i old → Reconciles (put_transaction t b) i
    unfolding balance_of credits debits holds put_transaction
    restated-Reconciles i same =
        omega (
          arith,
          h.reconciles i,
          sum_by-put transaction_id (hold_on i) t b.transactions there,
          same,
        )

    pub restated-IsSound :
        ((i : ℕ) → hold_on i t ≡ hold_on i old) → OneSided t → IsSound (put_transaction t b)
    unfolding put_transaction
    restated-IsSound same one_sided = record {
      wallets_keyed = h.wallets_keyed;
      transactions_keyed = put-IsKeyed transaction_id t b.transactions h.transactions_keyed;
      one_sided = put-All transaction_id OneSided t b.transactions one_sided h.one_sided;
      reconciles = λ i. restated-Reconciles i (same i);
    }

    module _ (landed : in_flight t.status ≡ false) where
      -- The shape that a transaction's end leaves.
      landed_shape :
          IsKeyed transaction_id (put transaction_id t b.transactions)
          × All OneSided (put transaction_id t b.transactions)
      landed_shape = (
        put-IsKeyed transaction_id t b.transactions h.transactions_keyed,
        put-All transaction_id OneSided t b.transactions (inl landed) h.one_sided,
      )

      module _ (e : LedgerEntry) where
        settled-Reconciles :
            e.entry_type ≡ debit
            → (i : ℕ) → hold_on i old ≡ (if e.wallet_id == i then e.amount else 0)
            → Reconciles (settled_books t e b) i
        unfolding settled_books balance_of credits debits holds put_transaction add_entry sum_by
        settled-Reconciles kind i held = ground (
          arith,
          h.reconciles i,
          hold_on-landed t i landed,
          sum_by-put transaction_id (hold_on i) t b.transactions there,
        )

        pub settled-IsSound :
            e.entry_type ≡ debit
            → ((i : ℕ) → hold_on i old ≡ (if e.wallet_id == i then e.amount else 0))
            → IsSound (settled_books t e b)
        unfolding settled_books put_transaction add_entry
        settled-IsSound kind held = record {
          wallets_keyed = h.wallets_keyed;
          transactions_keyed = landed_shape.0;
          one_sided = landed_shape.1;
          reconciles = λ i. settled-Reconciles kind i (held i);
        }

      module _ (wallet : Wallet)
          (wallet_there : get wallet_id wallet.id b.wallets ≡ some wallet) where
        returned-Reconciles :
            (i : ℕ)
            → hold_on i old ≡ (if wallet.id == i then t.amount else 0)
            → Reconciles (returned_books t wallet b) i
        unfolding returned_books balance_of credits debits holds put_transaction put_wallet sum_by
        returned-Reconciles i held = ground (
          arith,
          h.reconciles i,
          hold_on-landed t i landed,
          balance_of-get wallet b wallet_there,
          sum_by-put transaction_id (hold_on i) t b.transactions there,
          get-put wallet_id i (with_balance wallet (wallet.balance + t.amount)) b.wallets
              wallet_there,
        )

        pub returned-IsSound :
            ((i : ℕ) → hold_on i old ≡ (if wallet.id == i then t.amount else 0))
            → IsSound (returned_books t wallet b)
        unfolding returned_books put_transaction put_wallet
        returned-IsSound held = record {
          wallets_keyed = put-IsKeyed wallet_id _ b.wallets h.wallets_keyed;
          transactions_keyed = landed_shape.0;
          one_sided = landed_shape.1;
          reconciles = λ i. returned-Reconciles i (held i);
        }

        module _ (e : LedgerEntry) (at : e.wallet_id ≡ wallet.id)
            (kind : e.entry_type ≡ credit) where
          funded-Reconciles : (i : ℕ) → hold_on i old ≡ 0 → Reconciles (funded_books t e wallet b) i
          unfolding funded_books balance_of credits debits holds put_transaction add_entry
              put_wallet sum_by
          funded-Reconciles i none_before = ground (
            arith,
            h.reconciles i,
            hold_on-landed t i landed,
            balance_of-get wallet b wallet_there,
            sum_by-put transaction_id (hold_on i) t b.transactions there,
            get-put wallet_id i (with_balance wallet (wallet.balance + e.amount)) b.wallets
                wallet_there,
          )

          pub funded-IsSound : ((i : ℕ) → hold_on i old ≡ 0) → IsSound (funded_books t e wallet b)
          unfolding funded_books put_transaction add_entry put_wallet
          funded-IsSound none_before = record {
            wallets_keyed = put-IsKeyed wallet_id _ b.wallets h.wallets_keyed;
            transactions_keyed = landed_shape.0;
            one_sided = landed_shape.1;
            reconciles = λ i. funded-Reconciles i (none_before i);
          }

  module _ (t : Transaction) (fresh : get transaction_id t.id b.transactions ≡ none)
      (wallet : Wallet) (wallet_there : get wallet_id wallet.id b.wallets ≡ some wallet)
      (covered : t.amount ≤ wallet.balance) where
    held-Reconciles :
        (i : ℕ)
        → hold_on i t ≡ (if wallet.id == i then t.amount else 0)
        → Reconciles (held_books t wallet b) i
    unfolding held_books balance_of credits debits holds insert_transaction put_wallet sum_by
    held-Reconciles i holds_it = ground (
      arith,
      h.reconciles i,
      balance_of-get wallet b wallet_there,
      get-put wallet_id i (with_balance wallet (wallet.balance - t.amount)) b.wallets wallet_there,
    )

    pub held-IsSound :
        ((i : ℕ) → hold_on i t ≡ (if wallet.id == i then t.amount else 0))
        → OneSided t
        → IsSound (held_books t wallet b)
    unfolding held_books insert_transaction put_wallet
    held-IsSound holds_it one_sided = record {
      wallets_keyed = put-IsKeyed wallet_id _ b.wallets h.wallets_keyed;
      transactions_keyed = (fresh, h.transactions_keyed);
      one_sided = (one_sided, h.one_sided);
      reconciles = λ i. held-Reconciles i (holds_it i);
    }
