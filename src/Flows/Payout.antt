-- ===== src/Flows/Payout.antt =====
-- The result of a payout (Services/Withdrawal/Payout): a success writes the DEBIT entry in place of
-- the hold, a failure returns the amount, and both keep the books sound.
use paycore_backend.Base.{
  ℕ, ◌+◌, ◌≡◌, true, Option, none, some, String, arith, refl, subst, sym, ap, ◌∙◌, str_eq, ◌||◌,
}
use Prim.Native.String.{◌++◌}
use paycore_backend.Base.Table.{get}
use paycore_backend.Models.Transaction.{
  Transaction, TransactionStatus, processing, completed, failed, valid_transition,
}
use paycore_backend.Models.Rows.{Wallet, LedgerEntry, ActorType, debit}
use paycore_backend.Database.{Db}
use paycore_backend.Session.{Env, Session, Action}
use paycore_backend.Repositories.Wallet.{wallet_id, lock_for_update, update_balance}
use paycore_backend.Repositories.Transaction.{
  transaction_id, get_by_reference, update_status_lem, with_status,
}
use paycore_backend.Repositories.Ledger.{create_entry}
use paycore_backend.Services.Audit
use paycore_backend.Services.Withdrawal.Payout.{
  on_wallet, on_source_wallet, on_status, on_processing, settle_payout, return_payout,
  process_payout_success, process_payout_failure, process_transfer_result,
}
use paycore_backend.Books.{IsSound}
use paycore_backend.Books.Steps.{settled_books, settled-IsSound, returned_books, returned-IsSound}
use paycore_backend.Settlement.Plan.{get-lock_for_update}
use paycore_backend.Flows.{Sound, log-Sound, found-facts, if-Sound}

-- What the guards of both handlers establish: a PROCESSING row and the wallet that it holds from.
pub record IsHeld (txn : Transaction) (wallet : Wallet) (s : Session) : Type 0 where
  pub status : txn.status ≡ processing
  pub there : get transaction_id txn.id s.db.transactions ≡ some txn
  pub source : txn.source_wallet_id ≡ some wallet.id
  pub wallet_there : get wallet_id wallet.id s.db.wallets ≡ some wallet

module _ (env : Env) (txn : Transaction) (wallet : Wallet) (s : Session) where
  abbrev pub payout_entry : LedgerEntry
  payout_entry = record {
    id = env.uuid s.drawn;
    transaction_id = txn.id;
    wallet_id = wallet.id;
    entry_type = debit;
    amount = txn.amount;
    currency = txn.currency;
    balance_after = wallet.balance;
    created_at = env.now;
  }

  abbrev pub settled_db : Db
  settled_db = record s.db {
    books = settled_books (with_status txn completed none) payout_entry s.db.books;
  }

  pub settle_payout_lem :
      valid_transition txn.status completed ≡ true
      → settle_payout env txn wallet s
        ≡ Audit.log env
            (some txn.initiated_by_user_id)
            ActorType.system
            "withdrawal.completed"
            "transaction"
            txn.id
            (record s { db = settled_db; committed = settled_db; drawn = s.drawn + 1 })
  unfolding settle_payout create_entry settled_books
  settle_payout_lem valid = rw (update_status_lem, valid)

  settle_payout-Sound :
      IsHeld txn wallet s → IsSound s.db.books → Sound (settle_payout env txn wallet s).1
  unfolding valid_transition with_status
  settle_payout-Sound held h =
      let status = held.status in
      let source = held.source in
      rw (settle_payout_lem (ground arith)) (
        log-Sound env _ _ _ _ _ _ refl (
          settled-IsSound s.db.books h (with_status txn completed none) txn held.there refl
            payout_entry refl (λ i. ground arith)))

  module _ (transfer_code : String) where
    abbrev pub failed_record : Transaction
    failed_record =
        with_status txn failed (some ("Paystack transfer failed or reversed: " ++ transfer_code))

    abbrev pub returned_db : Db
    returned_db = record s.db { books = returned_books failed_record wallet s.db.books }

    pub return_payout_lem :
        valid_transition txn.status failed ≡ true
        → return_payout env transfer_code txn wallet s
          ≡ Audit.log env
              (some txn.initiated_by_user_id)
              ActorType.system
              "withdrawal.failed"
              "transaction"
              txn.id
              (record s { db = returned_db; committed = returned_db })
    unfolding return_payout update_balance returned_books with_status
    return_payout_lem valid = rw (update_status_lem, valid)

    return_payout-Sound :
        IsHeld txn wallet s
        → IsSound s.db.books
        → Sound (return_payout env transfer_code txn wallet s).1
    unfolding valid_transition with_status
    return_payout-Sound held h =
        let status = held.status in
        let source = held.source in
        rw (return_payout_lem (ground arith)) (
          log-Sound env _ _ _ _ _ _ refl (
            returned-IsSound s.db.books h failed_record txn held.there refl wallet held.wallet_there
              (λ i. ground arith)))

-- A handler behind the shared guards keeps the books sound if it does so on a held payout.
module _ (handle : Transaction → Wallet → Action (Unit {0})) (s : Session) (sound : Sound s)
    (keeps : (t : Transaction) (w : Wallet) → IsHeld t w s → Sound (handle t w s).1) where
  on_wallet-Sound :
      (txn : Transaction) (i : ℕ) (found : Option Wallet)
      → txn.status ≡ processing
      → get transaction_id txn.id s.db.transactions ≡ some txn
      → txn.source_wallet_id ≡ some i
      → lock_for_update i s.db ≡ found
      → Sound (on_wallet handle txn found s).1
  unfolding on_wallet
  on_wallet-Sound txn i none status there source e = sound
  on_wallet-Sound txn i (some w) status there source e =
      let (at, same) = get-lock_for_update s.db sound.seen.wallets_keyed i e in
      keeps txn w (record {
        status = status;
        there = there;
        source = source ∙ ap some (sym same);
        wallet_there = subst (λ j. get wallet_id j s.db.wallets ≡ some w) (sym same) at;
      })

  on_source_wallet-Sound :
      (txn : Transaction) (source : Option ℕ)
      → txn.status ≡ processing
      → get transaction_id txn.id s.db.transactions ≡ some txn
      → txn.source_wallet_id ≡ source
      → Sound (on_source_wallet handle txn source s).1
  unfolding on_source_wallet
  on_source_wallet-Sound txn none status there e = sound
  on_source_wallet-Sound txn (some i) status there e =
      on_wallet-Sound txn i (lock_for_update i s.db) status there e refl

  on_status-Sound :
      (txn : Transaction) (status : TransactionStatus)
      → txn.status ≡ status
      → get transaction_id txn.id s.db.transactions ≡ some txn
      → Sound (on_status handle txn status s).1
  unfolding on_status
  on_status-Sound txn processing status there =
      on_source_wallet-Sound txn txn.source_wallet_id status there refl
  on_status-Sound txn _ status there = sound

  by_reference-Sound :
      (reference : String) (found : Option Transaction)
      → get_by_reference reference s.db ≡ found
      → Sound (on_processing handle found s).1
  unfolding on_processing get_by_reference
  by_reference-Sound reference none e = sound
  by_reference-Sound reference (some t) e =
      on_status-Sound t t.status refl (found-facts s.db.books _ sound.seen e).0

-- A `transfer.success` event keeps the books sound.
pub process_payout_success-Sound :
    (env : Env) (reference : String) (s : Session)
    → Sound s
    → Sound (process_payout_success env reference s).1
unfolding process_payout_success
process_payout_success-Sound env reference s sound =
    by_reference-Sound (settle_payout env) s sound
      (λ t w held. settle_payout-Sound env t w s held sound.seen) reference _ refl

-- A `transfer.failed` or `transfer.reversed` event keeps the books sound.
pub process_payout_failure-Sound :
    (env : Env) (reference transfer_code : String) (s : Session)
    → Sound s
    → Sound (process_payout_failure env reference transfer_code s).1
unfolding process_payout_failure
process_payout_failure-Sound env reference transfer_code s sound =
    by_reference-Sound (return_payout env transfer_code) s sound
      (λ t w held. return_payout-Sound env t w s transfer_code held sound.seen) reference _ refl

-- Any transfer event, handled on a session with sound books, keeps them sound, both those that the
-- session sees and those that are committed.
pub process_transfer_result-Sound :
    (env : Env) (event reference transfer_code : String) (s : Session)
    → Sound s
    → Sound (process_transfer_result env event reference transfer_code s).1
unfolding process_transfer_result
process_transfer_result-Sound env event reference transfer_code s sound =
    if-Sound (str_eq reference "") _ _ s sound (
      if-Sound (str_eq event "transfer.success") _ _ s
        (process_payout_success-Sound env reference s sound)
        (if-Sound (str_eq event "transfer.failed" || str_eq event "transfer.reversed") _ _ s
          (process_payout_failure-Sound env reference transfer_code s sound) sound))
