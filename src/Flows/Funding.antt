-- ===== src/Flows/Funding.antt =====
-- `process_charge_success` (Services/PaystackWebhook) keeps the books sound.
use paycore_backend.Base.{
  ℕ, ◌+◌, ◌≡◌, true, Option, none, some, String, arith, refl, subst, sym, ap, str_eq, is_text, List,
  [], ◌∷◌, ◌∙◌, inl, inr, Bool-cases,
}
use paycore_backend.Base.Table.{get, find, select, find-select, get-put_self}
use paycore_backend.Core.Errors.{ok, Result-cases}
use paycore_backend.Models.Transaction.{
  Transaction, TransactionStatus, pending, processing, completed, valid_transition,
}
use paycore_backend.Models.Rows.{Wallet, LedgerEntry, ActorType, credit}
use paycore_backend.Database.{Db, one_or_none}
use paycore_backend.Session.{Env, Session}
use paycore_backend.Repositories.Wallet.{wallet_id, lock_for_update, update_balance}
use paycore_backend.Repositories.Transaction.{
  transaction_id, get_by_provider_reference, update_status_lem, with_status, put_transaction,
}
use paycore_backend.Repositories.Ledger.{create_entry}
use paycore_backend.Services.Audit
use paycore_backend.Services.PaystackWebhook.{
  ChargeData, credit_wallet, credit_locked, credit_destination, charge_at, charge_found,
  process_charge_success,
}
use paycore_backend.Books.{IsSound, OneSided}
use paycore_backend.Books.Steps.{funded_books, funded-IsSound, restated-IsSound}
use paycore_backend.Settlement.Plan.{get-lock_for_update}
use paycore_backend.Flows.{Sound, log-Sound, found-facts}

module _ (env : Env) (amount : ℕ) (txn : Transaction) (wallet : Wallet) (s : Session) where
  abbrev pub credited_record : Transaction
  credited_record = with_status txn completed none

  abbrev pub credit_entry : LedgerEntry
  credit_entry = record {
    id = env.uuid s.drawn;
    transaction_id = txn.id;
    wallet_id = wallet.id;
    entry_type = credit;
    amount = amount;
    currency = txn.currency;
    balance_after = wallet.balance + amount;
    created_at = env.now;
  }

  abbrev pub credited_db : Db
  credited_db = record s.db { books = funded_books credited_record credit_entry wallet s.db.books }

  -- The crediting step as a whole, up to the audit trail.
  pub credit_wallet_lem :
      valid_transition txn.status completed ≡ true
      → credit_wallet env amount txn wallet s
        ≡ Audit.log env
            (some txn.initiated_by_user_id)
            ActorType.user
            "wallet.funded"
            "transaction"
            txn.id
            (record s { db = credited_db; committed = credited_db; drawn = s.drawn + 1 })
  unfolding credit_wallet update_balance create_entry funded_books
  credit_wallet_lem valid = rw (update_status_lem, valid)

  pub credit_wallet-Sound :
      txn.status ≡ processing
      → get transaction_id txn.id s.db.transactions ≡ some txn
      → get wallet_id wallet.id s.db.wallets ≡ some wallet
      → txn.source_wallet_id ≡ none
      → IsSound s.db.books
      → Sound (credit_wallet env amount txn wallet s).1
  unfolding valid_transition with_status
  credit_wallet-Sound status there wallet_there no_source h =
      rw (credit_wallet_lem (ground arith)) (
        log-Sound env _ _ _ _ _ _ refl (
          funded-IsSound s.db.books h credited_record txn there refl wallet wallet_there
            credit_entry refl refl (λ i. ground arith)))

module _ (env : Env) (amount : ℕ) (s : Session) (sound : Sound s) where
  module _ (txn : Transaction) (there : get transaction_id txn.id s.db.transactions ≡ some txn)
      (one_sided : OneSided txn) (status : txn.status ≡ processing) where
    credit_locked-Sound :
        (d : ℕ) (found : Option Wallet)
        → lock_for_update d s.db ≡ found
        → txn.destination_wallet_id ≡ some d
        → Sound (credit_locked env amount txn found s).1
    unfolding credit_locked
    credit_locked-Sound d none e to = sound
    credit_locked-Sound d (some wallet) e to =
        let (at, same) = get-lock_for_update s.db sound.seen.wallets_keyed d e in
        credit_wallet-Sound env amount txn wallet s status there
          (subst (λ i. get wallet_id i s.db.wallets ≡ some wallet) (sym same) at) (ground arith)
          sound.seen

    credit_destination-Sound :
        (to : Option ℕ)
        → txn.destination_wallet_id ≡ to
        → Sound (credit_destination env amount txn to s).1
    unfolding credit_destination
    credit_destination-Sound none e = sound
    credit_destination-Sound (some d) e = credit_locked-Sound d (lock_for_update d s.db) refl e

module _ (s : Session) (sound : Sound s) where
  pub started-Sound :
      (txn : Transaction)
      → get transaction_id txn.id s.db.transactions ≡ some txn
      → OneSided txn
      → txn.status ≡ pending
      → Sound (record s {
        db = record s.db { books = put_transaction (with_status txn processing none) s.db.books };
      })
  unfolding with_status
  started-Sound txn there one_sided status = record {
    seen =
        restated-IsSound s.db.books sound.seen (with_status txn processing none) txn there
          (λ i. ground arith) (ground arith);
    durable = sound.durable;
  }

module _ (env : Env) (amount : ℕ) (s : Session) (sound : Sound s) where
  charge_at-Sound :
      (txn : Transaction) (status : TransactionStatus)
      → get transaction_id txn.id s.db.transactions ≡ some txn
      → OneSided txn
      → txn.status ≡ status
      → Sound (charge_at env amount txn status s).1
  unfolding charge_at valid_transition with_status
  charge_at-Sound txn pending there one_sided status =
      let valid : valid_transition txn.status processing ≡ true = ground arith in
      let started = with_status txn processing none in
      rw (update_status_lem txn processing none s, valid)
        (credit_destination-Sound env amount _ (started-Sound s sound txn there one_sided status)
          started
          (unfold put_transaction in get-put_self transaction_id started s.db.transactions there)
          (ground arith) refl started.destination_wallet_id refl)
  charge_at-Sound txn _ there one_sided status = sound

  charge_found-Sound :
      (found : Option Transaction)
      → ((t : Transaction)
          → found ≡ some t
          → (get transaction_id t.id s.db.transactions ≡ some t) × OneSided t)
      → Sound (charge_found env amount found s).1
  unfolding charge_found
  charge_found-Sound none facts = sound
  charge_found-Sound (some txn) facts =
      let (there, one_sided) = facts txn refl in charge_at-Sound txn txn.status there one_sided refl

-- The transaction of a provider reference, if the query returns one, is a row of the table.
provider_reference_find :
    (r : String) (db : Db) {t : Transaction}
    → get_by_provider_reference r db ≡ ok (some t)
    → find (λ t. is_text t.provider_reference r) db.transactions ≡ some t
unfolding get_by_provider_reference
provider_reference_find r db {t} e =
    go (select (λ t. is_text t.provider_reference r) db.transactions) refl e
  where
    go :
        (rows : List Transaction)
        → select (λ t. is_text t.provider_reference r) db.transactions ≡ rows
        → one_or_none rows db ≡ ok (some t)
        → find (λ t. is_text t.provider_reference r) db.transactions ≡ some t
    go [] at q = absurd (cc)
    go (a ∷ []) at q = find-select _ db.transactions {a = t} {r = []} (at ∙ cc)
    go (a ∷ b ∷ l) at q = absurd (cc)

-- Whatever Paystack reports, and whatever the branch taken, handling a `charge.success` event on a
-- session with sound books keeps them sound, both those that the session sees and those that are
-- committed.
pub process_charge_success-Sound :
    (env : Env) (charge : ChargeData) (s : Session)
    → Sound s
    → Sound (process_charge_success env charge s).1
unfolding process_charge_success
process_charge_success-Sound env charge s sound = elim (Bool-cases (str_eq charge.reference "")) [
  | inl missing ↦ rw missing sound
  | inr given ↦ rw given (elim (Result-cases (get_by_provider_reference charge.reference s.db)) [
    | inl (e, raised) ↦ rw raised sound
    | inr (found, answer) ↦ rw answer (
        charge_found-Sound env charge.amount s sound found λ t e.
          found-facts s.db.books _ sound.seen
            (provider_reference_find charge.reference s.db (answer ∙ ap ok e)))
  ])
]
