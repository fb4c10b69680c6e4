-- ===== src/Books/Movement.antt =====
-- Posting a movement between two wallets (Services/Posting), as a change of the books.
use paycore_backend.Base.{
  ℕ, ◌+◌, ◌-◌, ◌≤◌, ◌≡◌, ◌≢◌, false, Option, none, some, arith, Bool-cases, inl, inr, if◌then◌else◌,
  String, ◌==◌,
}
use paycore_backend.Base.Table.{get, put, sum_by, get-put, put-IsKeyed}
use paycore_backend.Core.Errors.{integrity, ok, err}
use paycore_backend.Models.Transaction.{Transaction, TransactionType}
use paycore_backend.Models.Rows.{Wallet, LedgerEntry, EntryType, debit, credit}
use paycore_backend.Database.{Books, Db}
use paycore_backend.Session.{Env, Session}
use paycore_backend.Repositories.Wallet.{wallet_id, put_wallet}
use paycore_backend.Repositories.Transaction.{
  transaction_id, conflicts, create_lem, insert_transaction,
}
use paycore_backend.Repositories.Ledger.{add_entry}
use paycore_backend.Services.Posting.{posted, movement_record, write_movement}
use paycore_backend.Books.{
  Reconciles, in_flight, balance_of-get, IsSound, balance_of, credits, debits, holds,
}

-- An entry as `create_entry` writes it.
abbrev pub entry_of : Env → ℕ → Transaction → ℕ → EntryType → ℕ → LedgerEntry
entry_of env id t w type balance_after = record {
  id = id;
  transaction_id = t.id;
  wallet_id = w;
  entry_type = type;
  amount = t.amount;
  currency = t.currency;
  balance_after = balance_after;
  created_at = env.now;
}

-- The books after a movement of `t.amount` from `source` to `destination`, where `n` UUIDs were
-- drawn before.
unfoldable pub moved_books : Env → ℕ → Transaction → Wallet → Wallet → Books → Books
moved_books env n t source destination b =
    let source' = record source { balance = source.balance - t.amount } in
    let destination' = record destination { balance = destination.balance + t.amount } in
    let d = entry_of env (env.uuid (n + 1 + 1)) t source.id debit source'.balance in
    let c = entry_of env (env.uuid (n + 1 + 1 + 1)) t destination.id credit destination'.balance in
    put_wallet destination'
      (put_wallet source' (add_entry c (add_entry d (insert_transaction t b))))

module _ (env : Env) (user_id : ℕ) (type : TransactionType) (source destination : Wallet)
    (amount : ℕ) (key : Option String) (s : Session) where
  abbrev pub new_record : Transaction
  new_record =
      movement_record env (env.uuid (s.drawn + 1)) (env.uuid s.drawn) user_id type source
        destination amount key

  abbrev pub moved_db : Db
  moved_db = record s.db {
    books = moved_books env s.drawn new_record source destination s.db.books;
  }

  -- A clash with a UNIQUE constraint raises and has written nothing; else all is written and committed.
  pub write_movement_lem : write_movement env user_id type source destination amount key s ≡ (
      if conflicts new_record s.db.transactions
      then (err integrity, record s { drawn = s.drawn + 1 + 1 })
      else (
        ok (posted new_record),
        record s { db = moved_db; committed = moved_db; drawn = s.drawn + 1 + 1 + 1 + 1 },
      ))
  unfolding write_movement moved_books add_entry put_wallet
  write_movement_lem =
      rw create_lem
        (elim (Bool-cases (conflicts new_record s.db.transactions)) [ inl e ↦ rw e | inr e ↦ rw e ])

module _ (env : Env) (n : ℕ) (t : Transaction) (source destination : Wallet) (b : Books)
    (source_there : get wallet_id source.id b.wallets ≡ some source)
    (destination_there : get wallet_id destination.id b.wallets ≡ some destination)
    (apart : source.id ≢ destination.id) (covered : t.amount ≤ source.balance) where
  paid : Wallet
  paid = record source { balance = source.balance - t.amount }

  pub balance_of-moved :
      (i : ℕ)
      → balance_of i (moved_books env n t source destination b) ≡ (
          if destination.id == i
          then destination.balance + t.amount
          else if source.id == i
          then source.balance - t.amount
          else balance_of i b)
  unfolding moved_books balance_of put_wallet add_entry insert_transaction paid
  balance_of-moved i = ground (
    arith,
    get-put wallet_id i paid b.wallets source_there,
    get-put wallet_id destination.id paid b.wallets source_there,
    get-put wallet_id i (record destination { balance = destination.balance + t.amount })
        (put wallet_id paid b.wallets) {old = destination},
  )

  credits-moved :
      (i : ℕ)
      → credits i (moved_books env n t source destination b)
        ≡ (if destination.id == i then t.amount else 0) + credits i b
  unfolding moved_books credits put_wallet add_entry insert_transaction sum_by
  credits-moved i = ground arith

  debits-moved :
      (i : ℕ)
      → debits i (moved_books env n t source destination b)
        ≡ (if source.id == i then t.amount else 0) + debits i b
  unfolding moved_books debits put_wallet add_entry insert_transaction sum_by
  debits-moved i = ground arith

  holds-moved :
      in_flight t.status ≡ false
      → (i : ℕ) → holds i (moved_books env n t source destination b) ≡ holds i b
  unfolding moved_books holds put_wallet add_entry insert_transaction sum_by
  holds-moved landed i = ground arith

  Reconciles-moved :
      in_flight t.status ≡ false
      → (i : ℕ) → Reconciles b i
      → Reconciles (moved_books env n t source destination b) i
  Reconciles-moved landed i h = ground (
    arith,
    balance_of-moved i,
    credits-moved i,
    debits-moved i,
    holds-moved landed i,
    balance_of-get source b source_there,
    balance_of-get destination b destination_there,
  )

  -- A movement between two distinct wallets that covers its amount keeps the books sound.
  pub moved-IsSound :
      in_flight t.status ≡ false
      → get transaction_id t.id b.transactions ≡ none
      → IsSound b
      → IsSound (moved_books env n t source destination b)
  unfolding moved_books put_wallet add_entry insert_transaction
  moved-IsSound landed fresh h = record {
    wallets_keyed = put-IsKeyed wallet_id _ _ (put-IsKeyed wallet_id _ _ h.wallets_keyed);
    transactions_keyed = (fresh, h.transactions_keyed);
    one_sided = (inl landed, h.one_sided);
    reconciles = λ i. Reconciles-moved landed i (h.reconciles i);
  }
