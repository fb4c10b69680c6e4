-- ===== src/Flows/Once.antt =====
-- A payout ends once: after the first result of a transfer no other changes anything.
use paycore_backend.Base.{
  ℕ, ◌+◌, ◌≡◌, Bool, true, false, Option, none, some, String, arith, refl, subst, sym, ap, ◌∙◌,
  str_eq, ◌||◌, if◌then◌else◌,
}
use paycore_backend.Base.Table.{get, find-put, find-sat}
use paycore_backend.Core.Errors.{ok}
use paycore_backend.Models.Transaction.{
  Transaction, TransactionStatus, processing, completed, failed, valid_transition,
}
use paycore_backend.Models.Rows.{Wallet}
use paycore_backend.Database.{Books, Db}
use paycore_backend.Session.{Env, Session, Action}
use paycore_backend.Repositories.Wallet.{wallet_id, lock_for_update, put_wallet}
use paycore_backend.Repositories.Transaction.{
  transaction_id, get_by_reference, with_status, put_transaction,
}
use paycore_backend.Repositories.Ledger.{add_entry}
use paycore_backend.Services.Withdrawal.Payout.{
  on_wallet, on_source_wallet, on_status, on_processing, settle_payout, return_payout,
  process_payout_success, process_payout_failure, process_transfer_result,
}
use paycore_backend.Books.{IsSound}
use paycore_backend.Books.Steps.{settled_books, returned_books}
use paycore_backend.Settlement.Plan.{get-lock_for_update}
use paycore_backend.Flows.{Sound, log-books, found-facts}
use paycore_backend.Flows.Payout.{
  IsHeld, settle_payout_lem, return_payout_lem, settled_db, returned_db,
}

-- The shared guards of both handlers stop every event for the reference.
abbrev IsInert : String → Session → Type 0
IsInert reference s =
    (handle : Transaction → Wallet → Action (Unit {0}))
    → on_processing handle (get_by_reference reference s.db) s ≡ (ok tt, s)

-- A row with its new status stands where the query by reference found it.
get_by_reference-put :
    (reference : String) (t : Transaction) (status : TransactionStatus) (reason : Option String)
    (s : Session) (db' : Db)
    → IsSound s.db.books
    → get_by_reference reference s.db ≡ some t
    → db'.transactions ≡ (put_transaction (with_status t status reason) s.db.books).transactions
    → get_by_reference reference db' ≡ some (with_status t status reason)
unfolding get_by_reference put_transaction with_status
get_by_reference-put reference t status reason s db' h e rows =
    let p : Transaction → Bool = λ x. str_eq x.reference reference in
    rw rows (
      find-put transaction_id p (with_status t status reason) s.db.transactions h.transactions_keyed
        e refl (find-sat p s.db.transactions e))

completed-IsInert :
    (reference : String) (t : Transaction) (reason : Option String) (s : Session)
    → get_by_reference reference s.db ≡ some (with_status t completed reason)
    → IsInert reference s
unfolding on_processing on_status with_status
completed-IsInert reference t reason s e handle = rw e refl

failed-IsInert :
    (reference : String) (t : Transaction) (reason : Option String) (s : Session)
    → get_by_reference reference s.db ≡ some (with_status t failed reason)
    → IsInert reference s
unfolding on_processing on_status with_status
failed-IsInert reference t reason s e handle = rw e refl

module _ (env : Env) (reference : String) (t : Transaction) (w : Wallet) (s : Session)
    (sound : Sound s) (held : IsHeld t w s) (e : get_by_reference reference s.db ≡ some t) where
  settle_payout-IsInert : IsInert reference (settle_payout env t w s).1
  unfolding valid_transition settled_books add_entry put_transaction
  settle_payout-IsInert =
      let status = held.status in
      let after : Session = record s {
        db = settled_db env t w s;
        committed = settled_db env t w s;
        drawn = s.drawn + 1;
      } in
      rw (settle_payout_lem env t w s (ground arith)) (
        completed-IsInert reference t none _ (
          get_by_reference-put reference t completed none s _ sound.seen e
            (ap (λ (b : Books). b.transactions) (log-books env _ _ _ _ _ after refl).0)))

  return_payout-IsInert : (code : String) → IsInert reference (return_payout env code t w s).1
  unfolding valid_transition returned_books put_wallet put_transaction
  return_payout-IsInert code =
      let status = held.status in
      let after : Session = record s {
        db = returned_db env t w s code;
        committed = returned_db env t w s code;
      } in
      rw (return_payout_lem env t w s code (ground arith)) (
        failed-IsInert reference t _ _ (
          get_by_reference-put reference t failed _ s _ sound.seen e
            (ap (λ (b : Books). b.transactions) (log-books env _ _ _ _ _ after refl).0)))

-- A handler makes the reference inert if it does so on a held payout: the guards that stop it would
-- stop any other.
module _ (handle : Transaction → Wallet → Action (Unit {0})) (reference : String) (s : Session)
    (sound : Sound s)
    (ends : (t : Transaction) (w : Wallet)
      → IsHeld t w s
      → get_by_reference reference s.db ≡ some t
      → IsInert reference (handle t w s).1) where
  module _ (txn : Transaction) (e : get_by_reference reference s.db ≡ some txn)
      (there : get transaction_id txn.id s.db.transactions ≡ some txn) where
    on_wallet-IsInert :
        (i : ℕ) (found : Option Wallet)
        → txn.status ≡ processing
        → txn.source_wallet_id ≡ some i
        → lock_for_update i s.db ≡ found
        → IsInert reference (on_wallet handle txn found s).1
    unfolding on_wallet on_processing on_status on_source_wallet
    on_wallet-IsInert i none status source locked = λ other. rw (e, status, source, locked) refl
    on_wallet-IsInert i (some w) status source locked =
        let (at, same) = get-lock_for_update s.db sound.seen.wallets_keyed i locked in
        ends txn w
          (record {
            status = status;
            there = there;
            source = source ∙ ap some (sym same);
            wallet_there = subst (λ j. get wallet_id j s.db.wallets ≡ some w) (sym same) at;
          })
          e

    on_source_wallet-IsInert :
        (source : Option ℕ)
        → txn.status ≡ processing
        → txn.source_wallet_id ≡ source
        → IsInert reference (on_source_wallet handle txn source s).1
    unfolding on_processing on_status on_source_wallet
    on_source_wallet-IsInert none status from = λ other. rw (e, status, from) refl
    on_source_wallet-IsInert (some i) status from =
        on_wallet-IsInert i (lock_for_update i s.db) status from refl

    on_status-IsInert :
        (status : TransactionStatus)
        → txn.status ≡ status
        → IsInert reference (on_status handle txn status s).1
    unfolding on_processing on_status
    on_status-IsInert processing status = on_source_wallet-IsInert txn.source_wallet_id status refl
    on_status-IsInert _ status = λ other. rw (e, status) refl

  on_processing-IsInert :
      (found : Option Transaction)
      → get_by_reference reference s.db ≡ found
      → IsInert reference (on_processing handle found s).1
  unfolding on_processing get_by_reference
  on_processing-IsInert none e = λ other. rw e refl
  on_processing-IsInert (some t) e =
      on_status-IsInert t e (found-facts s.db.books _ sound.seen e).0 t.status refl

if-same :
    (b : Bool) (m n : Action (Unit {0})) (s : Session)
    → (m s).1 ≡ s
    → (n s).1 ≡ s
    → ((if b then m else n) s).1 ≡ s
if-same true m n s h k = h
if-same false m n s h k = k

-- No transfer event for an inert reference changes the session.
inert-same :
    (env : Env) (event reference code : String) (s : Session)
    → IsInert reference s
    → (process_transfer_result env event reference code s).1 ≡ s
unfolding process_transfer_result process_payout_success process_payout_failure
inert-same env event reference code s inert = if-same (str_eq reference "") _ _ s refl (
    if-same (str_eq event "transfer.success") _ _ s (ap (λ o. o.1) (inert (settle_payout env))) (
      if-same (str_eq event "transfer.failed" || str_eq event "transfer.reversed") _ _ s
        (ap (λ o. o.1) (inert (return_payout env code))) refl))

module _ (env env' : Env) (event reference code' : String) (s : Session) (sound : Sound s) where
  -- After a successful payout was handled on a sound session, no transfer event for the same
  -- reference changes the session: a payout is not booked twice, and a late `transfer.failed` does
  -- not return it. Nor is a later `transfer.reversed` recorded, which the plan of the project
  -- (workplan/05_api_integrations.md) asks for.
  pub process_payout_success-once :
      let s' = (process_payout_success env reference s).1 in
      (process_transfer_result env' event reference code' s').1 ≡ s'
  unfolding process_payout_success
  process_payout_success-once = inert-same env' event reference code' _ (
      on_processing-IsInert (settle_payout env) reference s sound
        (λ t w held e. settle_payout-IsInert env reference t w s sound held e) _ refl)

  -- After a failed payout was handled on a sound session, no transfer event for the same reference,
  -- successful or not, changes the session: an amount is not returned twice, and not booked after
  -- it was returned.
  pub process_payout_failure-once :
      (code : String)
      → let s' = (process_payout_failure env reference code s).1 in
        (process_transfer_result env' event reference code' s').1 ≡ s'
  unfolding process_payout_failure
  process_payout_failure-once code = inert-same env' event reference code' _ (
      on_processing-IsInert (return_payout env code) reference s sound
        (λ t w held e. return_payout-IsInert env reference t w s sound held e code) _ refl)
