-- ===== src/Settlement/Limits.antt =====
-- What the fraud rules guarantee of a request that they let through (app/services/fraud.py).
use paycore_backend.Base.{
  ℕ, ◌+◌, ◌≤◌, ◌≡◌, ◌≢◌, inl, inr, Option, none, String, arith, ap, subst, sym, ◌∷◌,
}
use paycore_backend.Base.Table.{IsKeyed, select, sum_by}
use paycore_backend.Core.Errors.{Result, ok, Result-cases}
use paycore_backend.Models.Transaction.{Transaction, TransactionType, transfer, merchant_payment}
use paycore_backend.Models.Rows.{User, Wallet}
use paycore_backend.Database.{Db, Books}
use paycore_backend.Session.{Env, Session, IsClean}
use paycore_backend.Repositories.Wallet.{wallet_id, put_wallet}
use paycore_backend.Repositories.Transaction.{get_by_key_if_given, insert_transaction}
use paycore_backend.Repositories.Ledger.{add_entry}
use paycore_backend.Repositories.Fraud.{get_daily_outgoing_sum}
use paycore_backend.Services.Fraud.{
  single_limit, tier_daily_limit, today_start, check_transfer, check_merchant_payment,
  enforce_kyc_single_limit, enforce_daily_limit,
}
use paycore_backend.Services.Locking.{Plan}
use paycore_backend.Services.Transfer
use paycore_backend.Services.MerchantPayment
use paycore_backend.Services.Posting.{movement_record}
use paycore_backend.Books.Movement.{moved_books}
use paycore_backend.Settlement.{Settles, rejected, replayed, moved, next_record}
use paycore_backend.Settlement.Transfer.{transfer_plan-eq-ok, initiate_transfer-Settles}
use paycore_backend.Settlement.MerchantPayment.{payment_plan-eq-ok, initiate_payment-Settles}

-- The rules on one user's amount: a KYC tier, the limit of one transaction, the limit of a day.
pub record IsAllowed (env : Env) (owner : User) (type : TransactionType) (amount : ℕ) (db : Db)
    : Type 0 where
  pub verified : owner.kyc_tier ≢ 0
  pub single : amount ≤ single_limit owner.kyc_tier
  pub daily :
      get_daily_outgoing_sum owner.id type (today_start env) db + amount
      ≤ tier_daily_limit owner.kyc_tier

rules-IsAllowed :
    (env : Env) (owner : User) (type : TransactionType) (amount : ℕ) (db : Db)
    → enforce_kyc_single_limit owner.kyc_tier amount db ≡ ok tt
    → enforce_daily_limit env owner.id owner.kyc_tier amount type db ≡ ok tt
    → IsAllowed env owner type amount db
unfolding enforce_kyc_single_limit enforce_daily_limit
rules-IsAllowed env owner type amount db e1 e2 = record {
  verified = λ q. ground arith;
  single = ground arith;
  daily = ground arith;
}

-- One more transaction adds at most its amount to the sum of the day.
get_daily_outgoing_sum-insert :
    (u day : ℕ) (type : TransactionType) (t : Transaction) (db db' : Db)
    → db'.transactions ≡ t ∷ db.transactions
    → get_daily_outgoing_sum u type day db' ≤ get_daily_outgoing_sum u type day db + t.amount
unfolding get_daily_outgoing_sum select sum_by
get_daily_outgoing_sum-insert u day type t db db' e = rw e (ground arith)

-- A settled request that was allowed, and answered with a transaction of a key not used before,
-- keeps the day's sum within the limit.
Settles-daily :
    (env : Env) (owner : User) (type : TransactionType) (amount : ℕ) (key : Option String)
    (s : Session) {r : Result Transaction} {s' : Session} (t : Transaction)
    → Settles env owner.id type amount key s r s'
    → get_by_key_if_given key s.committed ≡ none
    → r ≡ ok t
    → IsAllowed env owner type amount s.committed
    → get_daily_outgoing_sum owner.id type (today_start env) s'.committed
      ≤ tier_daily_limit owner.kyc_tier
unfolding movement_record moved_books put_wallet add_entry insert_transaction
Settles-daily env owner type amount key s t (rejected e result same) unused answer h = absurd (cc)
Settles-daily env owner type amount key s t (replayed t' used result same) unused answer h =
    absurd (cc)
Settles-daily env owner type amount key s {s' = s'} t
      (moved source destination funded fresh books result) unused answer h =
    let rows = ap (λ (b : Books). b.transactions) books in
    omega (
      arith,
      h.daily,
      get_daily_outgoing_sum-insert owner.id (today_start env) type
          (next_record env owner.id type amount key s source destination) s.committed s'.committed
          rows,
    )

module _ (env : Env) (amount : ℕ) (key : Option String) (s : Session) where
  check_transfer-IsAllowed :
      (sender : User) (a b : Wallet) (p : Plan) (db : Db)
      → Transfer.check_and_lock env sender a b amount none db ≡ ok p
      → IsAllowed env sender transfer amount db
  unfolding Transfer.check_and_lock check_transfer
  check_transfer-IsAllowed sender a b p db e =
      rules-IsAllowed env sender transfer amount db (ground arith) (ground arith)

  check_merchant_payment-IsAllowed :
      (payer : User) (a b : Wallet) (p : Plan) (db : Db)
      → MerchantPayment.check_and_lock env payer a b amount none db ≡ ok p
      → IsAllowed env payer merchant_payment amount db
  unfolding MerchantPayment.check_and_lock check_merchant_payment
  check_merchant_payment-IsAllowed payer a b p db e =
      rules-IsAllowed env payer merchant_payment amount db (ground arith) (ground arith)

  initiate_transfer-IsAllowed :
      (sender : User) (to : Transfer.Recipient) (t : Transaction)
      → get_by_key_if_given key s.db ≡ none
      → (Transfer.initiate_transfer env sender to amount key s).0 ≡ ok t
      → IsAllowed env sender transfer amount s.db
  unfolding Transfer.initiate_transfer
  initiate_transfer-IsAllowed sender to t unused answer =
      elim (Result-cases (Transfer.transfer_plan env sender to amount key s.db)) [
        | inl (e, failed) ↦ absurd (ground arith)
        | inr (p, planned) ↦
            let (w, resolved, rest) = transfer_plan-eq-ok env sender to amount key s.db planned in
            check_transfer-IsAllowed sender w.0 w.1 p s.db (
              subst (λ o. Transfer.check_and_lock env sender w.0 w.1 amount o s.db ≡ ok p) unused
                rest)
      ]

  initiate_payment-IsAllowed :
      (payer : User) (merchant : ℕ) (t : Transaction)
      → get_by_key_if_given key s.db ≡ none
      → (MerchantPayment.initiate_payment env payer merchant amount key s).0 ≡ ok t
      → IsAllowed env payer merchant_payment amount s.db
  unfolding MerchantPayment.initiate_payment
  initiate_payment-IsAllowed payer merchant t unused answer =
      elim (Result-cases (MerchantPayment.payment_plan env payer merchant amount key s.db)) [
        | inl (e, failed) ↦ absurd (ground arith)
        | inr ((m, p), planned) ↦
            let (w, resolved, rest) =
              payment_plan-eq-ok env payer merchant amount key s.db m p planned in
            check_merchant_payment-IsAllowed payer w.0 w.1 p s.db (
              subst (λ o. MerchantPayment.check_and_lock env payer w.0 w.1 amount o s.db ≡ ok p)
                unused rest)
      ]

  module _ (clean : IsClean s) (keyed : IsKeyed wallet_id s.committed.wallets)
      (unused : get_by_key_if_given key s.committed ≡ none) (t : Transaction) where
    -- A transfer that answers with a transaction, on a session without pending writes whose wallets
    -- have distinct ids and with a key not used before, is of a sender of KYC tier 1 or more, within
    -- the limit of one transaction, and the completed transfers of the day stay within the limit.
    pub initiate_transfer-limits :
        (sender : User) (to : Transfer.Recipient)
        → (Transfer.initiate_transfer env sender to amount key s).0 ≡ ok t
        → (sender.kyc_tier ≢ 0)
          × (amount ≤ single_limit sender.kyc_tier)
          × (get_daily_outgoing_sum sender.id transfer
                (today_start env)
                (Transfer.initiate_transfer env sender to amount key s).1.committed
              ≤ tier_daily_limit sender.kyc_tier)
    initiate_transfer-limits sender to answer =
        let h = subst (IsAllowed env sender transfer amount) clean (
          initiate_transfer-IsAllowed sender to t
            (subst (λ db. get_by_key_if_given key db ≡ none) (sym clean) unused) answer) in
        (
          h.verified,
          h.single,
          Settles-daily env sender transfer amount key s t
              (initiate_transfer-Settles env sender to amount key s clean keyed) unused answer h,
        )

    -- A payment that answers with a transaction, on a session without pending writes whose wallets
    -- have distinct ids and with a key not used before, is of a payer of KYC tier 1 or more, within
    -- the limit of one transaction, and the completed payments of the day stay within the limit.
    pub initiate_payment-limits :
        (payer : User) (merchant : ℕ)
        → (MerchantPayment.initiate_payment env payer merchant amount key s).0 ≡ ok t
        → (payer.kyc_tier ≢ 0)
          × (amount ≤ single_limit payer.kyc_tier)
          × (get_daily_outgoing_sum payer.id merchant_payment
                (today_start env)
                (MerchantPayment.initiate_payment env payer merchant amount key s).1.committed
              ≤ tier_daily_limit payer.kyc_tier)
    initiate_payment-limits payer merchant answer =
        let h = subst (IsAllowed env payer merchant_payment amount) clean (
          initiate_payment-IsAllowed payer merchant t
            (subst (λ db. get_by_key_if_given key db ≡ none) (sym clean) unused) answer) in
        (
          h.verified,
          h.single,
          Settles-daily env payer merchant_payment amount key s t
              (initiate_payment-Settles env payer merchant amount key s clean keyed) unused answer
              h,
        )
