-- ===== src/Books/Openings.antt =====
-- New rows that move no money keep the books sound: an empty wallet, a transaction that holds nothing.
use paycore_backend.Base.{ℕ, ◌≡◌, none, arith, ◌∷◌}
use paycore_backend.Base.Table.{get, sum_by}
use paycore_backend.Models.Transaction.{Transaction}
use paycore_backend.Models.Rows.{Wallet}
use paycore_backend.Database.{Books}
use paycore_backend.Repositories.Wallet.{wallet_id}
use paycore_backend.Repositories.Transaction.{transaction_id, insert_transaction}
use paycore_backend.Books.{
  IsSound, Reconciles, OneSided, hold_on, balance_of, credits, debits, holds,
}

abbrev pub opened_books : Wallet → Books → Books
opened_books w b = record b { wallets = w ∷ b.wallets }

module _ (b : Books) (h : IsSound b) where
  inserted-Reconciles :
      (t : Transaction) (i : ℕ) → hold_on i t ≡ 0 → Reconciles (insert_transaction t b) i
  unfolding balance_of credits debits holds insert_transaction sum_by
  inserted-Reconciles t i nothing = ground (arith, h.reconciles i)

  pub inserted-IsSound :
      (t : Transaction)
      → get transaction_id t.id b.transactions ≡ none
      → ((i : ℕ) → hold_on i t ≡ 0)
      → OneSided t
      → IsSound (insert_transaction t b)
  unfolding insert_transaction
  inserted-IsSound t fresh nothing one_sided = record {
    wallets_keyed = h.wallets_keyed;
    transactions_keyed = (fresh, h.transactions_keyed);
    one_sided = (one_sided, h.one_sided);
    reconciles = λ i. inserted-Reconciles t i (nothing i);
  }

  opened-Reconciles :
      (w : Wallet) (i : ℕ)
      → get wallet_id w.id b.wallets ≡ none
      → w.balance ≡ 0
      → Reconciles (opened_books w b) i
  unfolding balance_of credits debits holds get
  opened-Reconciles w i fresh empty = ground (arith, h.reconciles i)

  pub opened-IsSound :
      (w : Wallet)
      → get wallet_id w.id b.wallets ≡ none
      → w.balance ≡ 0
      → IsSound (opened_books w b)
  opened-IsSound w fresh empty = record {
    wallets_keyed = (fresh, h.wallets_keyed);
    transactions_keyed = h.transactions_keyed;
    one_sided = h.one_sided;
    reconciles = λ i. opened-Reconciles w i fresh empty;
  }
