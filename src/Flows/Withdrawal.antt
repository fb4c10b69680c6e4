-- ===== src/Flows/Withdrawal.antt =====
-- `initiate_withdrawal` (Services/Withdrawal) holds the amount or writes nothing.
use Prim.Native.String.{◌++◌}
use paycore_backend.Base.{
  none, ℕ, ◌+◌, ◌≤◌, ◌≡◌, false, some, arith, refl, subst, sym, ap, ◌∙◌, inl, inr, Bool-cases,
  Option-cases, if◌then◌else◌,
}
use mathlib.Core.Option.{some-injective}
use paycore_backend.Base.Table.{get, IsKeyed}
use paycore_backend.Core.Errors.{AppError, integrity, Result, ok, err, Result-cases}
use paycore_backend.Models.Transaction.{Transaction, withdrawal, pending, bank_account_id}
use paycore_backend.Models.Rows.{User, Wallet}
use paycore_backend.Database.{Db}
use paycore_backend.Session.{Env, Session, IsClean}
use paycore_backend.Repositories.Wallet.{wallet_id, update_balance, lock_for_update, get_by_user_id}
use paycore_backend.Repositories.Transaction.{conflicts, create_lem}
use paycore_backend.Services.Audit
use paycore_backend.Services.Withdrawal.{
  withdrawal_plan, withdrawal_record, write_withdrawal, report_withdrawal, initiate_withdrawal,
}
use paycore_backend.Books.{IsSound}
use paycore_backend.Books.Steps.{held_books, held-IsSound}
use paycore_backend.Settlement.Plan.{get-lock_for_update, get-get_by_user_id}
use paycore_backend.Settlement.Laws.{get-conflicts}

-- A wallet of the user that is in the books and covers the amount.
pub record IsCovered (user_id amount : ℕ) (wallet : Wallet) (db : Db) : Type 0 where
  pub there : get wallet_id wallet.id db.wallets ≡ some wallet
  pub owned : wallet.user_id ≡ user_id
  pub covered : amount ≤ wallet.balance

module _ (env : Env) (owner : User) (account amount : ℕ) where
  plan_locks :
      (db : Db) {w : Wallet}
      → withdrawal_plan env owner account amount db ≡ ok w
      → (a : Wallet) × (get_by_user_id owner.id db ≡ some a)
        × (lock_for_update a.id db ≡ some w)
        × (amount ≤ w.balance)
  unfolding withdrawal_plan
  plan_locks db {w} e = elim (Option-cases (get_by_user_id owner.id db)) [
    | inl nobody ↦ absurd (ground arith)
    | inr (a, found) ↦ (a, found, ground arith, ground arith)
  ]

  plan-IsCovered :
      (db : Db) {w : Wallet}
      → IsKeyed wallet_id db.wallets
      → withdrawal_plan env owner account amount db ≡ ok w
      → IsCovered owner.id amount w db
  plan-IsCovered db {w} keyed e =
      let (a, found, locked, covered) = plan_locks db e in
      let (a_there, user) = get-get_by_user_id db keyed owner.id found in
      let (there, same) = get-lock_for_update db keyed a.id locked in
      record {
        there = subst (λ i. get wallet_id i db.wallets ≡ some w) (sym same) there;
        owned = ap (λ (x : Wallet). x.user_id) (some-injective w a (sym there ∙ a_there)) ∙ user;
        covered = covered;
      }

  module _ (s : Session) where
    -- The record of the withdrawal, for the UUIDs that are drawn next.
    abbrev pub next_withdrawal : Wallet → Transaction
    next_withdrawal wallet = record {
      id = env.uuid (s.drawn + 1);
      reference = "txn_" ++ env.hex (env.uuid s.drawn);
      type = withdrawal;
      status = pending;
      amount = amount;
      currency = wallet.currency;
      source_wallet_id = some wallet.id;
      destination_wallet_id = none;
      initiated_by_user_id = owner.id;
      provider_reference = none;
      idempotency_key = none;
      extra_data = some (bank_account_id account);
      failure_reason = none;
      risk_flagged = false;
      created_at = env.now;
    }

    abbrev pub held_db : Wallet → Db
    held_db wallet = record s.db { books = held_books (next_withdrawal wallet) wallet s.db.books }

    -- A withdrawal request that ends in the result `r` and the session `s'`.
    pub data Holds (r : Result Transaction) (s' : Session) : Type 0 where
      -- It raised, and the committed books are what they were.
      rejected : (e : AppError) → r ≡ err e → s'.committed.books ≡ s.committed.books → Holds r s'
      -- The amount left the balance of a wallet of the user, held by a PENDING transaction.
      held :
          (wallet : Wallet)
          → IsCovered owner.id amount wallet s.committed
          → conflicts (next_withdrawal wallet) s.committed.transactions ≡ false
          → s'.committed.books ≡ held_books (next_withdrawal wallet) wallet s.committed.books
          → r ≡ ok (next_withdrawal wallet)
          → Holds r s'

    write_withdrawal_lem :
        (wallet : Wallet)
        → write_withdrawal env owner wallet account amount s ≡ (
            if conflicts (next_withdrawal wallet) s.db.transactions
            then (err integrity, record s { drawn = s.drawn + 1 + 1 })
            else (
              ok (next_withdrawal wallet),
              record s { db = held_db wallet; committed = held_db wallet; drawn = s.drawn + 1 + 1 },
            ))
    unfolding write_withdrawal update_balance held_books withdrawal_record
    write_withdrawal_lem wallet =
        rw create_lem (elim (Bool-cases (conflicts (next_withdrawal wallet) s.db.transactions)) [
          | inl e ↦ rw e
          | inr e ↦ rw e
        ])

    report_withdrawal_lem :
        (t : Transaction) (s' : Session)
        → IsClean s'
        → ((report_withdrawal env owner t s').0 ≡ ok t)
          × ((report_withdrawal env owner t s').1.committed.books ≡ s'.committed.books)
    unfolding report_withdrawal Audit.log
    report_withdrawal_lem t s' clean = (ground arith, ground arith)

    abbrev outcome : Result Transaction × Session
    outcome = initiate_withdrawal env owner account amount s

    planned-Holds :
        (wallet : Wallet)
        → IsClean s
        → IsCovered owner.id amount wallet s.committed
        → withdrawal_plan env owner account amount s.db ≡ ok wallet
        → Holds outcome.0 outcome.1
    unfolding initiate_withdrawal
    planned-Holds wallet clean covered planned =
        rw (planned, write_withdrawal_lem wallet)
          (elim (Bool-cases (conflicts (next_withdrawal wallet) s.db.transactions)) [
            | inl e ↦ rw e (rejected integrity refl refl)
            | inr e ↦ rw e (
                let (result, books) = report_withdrawal_lem (next_withdrawal wallet) _ refl in
                held wallet covered
                  (subst (λ (db : Db). conflicts (next_withdrawal wallet) db.transactions ≡ false)
                    clean e)
                  (books
                    ∙ ap (λ (db : Db). held_books (next_withdrawal wallet) wallet db.books) clean)
                  result)
          ])

    -- Every withdrawal request on a session without pending writes, whose wallets have distinct
    -- ids, either raises and leaves the committed books alone, or answers with a PENDING
    -- transaction that holds the amount, taken from the balance of a wallet of the user that covers
    -- it.
    pub initiate_withdrawal-Holds :
        IsClean s → IsKeyed wallet_id s.committed.wallets → Holds outcome.0 outcome.1
    unfolding initiate_withdrawal
    initiate_withdrawal-Holds clean keyed =
        elim (Result-cases (withdrawal_plan env owner account amount s.db)) [
          | inl (e, failed) ↦ rw failed (rejected e refl refl)
          | inr (wallet, planned) ↦
              planned-Holds wallet clean
                (plan-IsCovered s.committed keyed (
                  subst (λ db. withdrawal_plan env owner account amount db ≡ ok wallet) clean
                    planned))
                planned
        ]

    pub Holds-IsSound :
        {r : Result Transaction} {s' : Session}
        → Holds r s'
        → IsSound s.committed.books
        → IsSound s'.committed.books
    unfolding withdrawal_record
    Holds-IsSound (rejected e result same) h = subst IsSound (sym same) h
    Holds-IsSound (held wallet covered fresh books result) h = subst IsSound (sym books) (
        held-IsSound s.committed.books h (next_withdrawal wallet)
          (get-conflicts _ s.committed.transactions fresh) wallet covered.there covered.covered
          (λ i. ground arith) (inr (inr refl)))
