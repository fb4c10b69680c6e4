-- ===== src/Settlement/MerchantPayment.antt =====
-- `MerchantPaymentService.initiate_payment` settles every request.
use paycore_backend.Base.{ℕ, ◌≡◌, ◌≢◌, inl, inr, Option, some, String, arith, refl, subst}
use paycore_backend.Base.Table.{IsKeyed}
use paycore_backend.Core.Errors.{Result, ok, Result-cases}
use paycore_backend.Models.Transaction.{Transaction, merchant_payment}
use paycore_backend.Models.Rows.{User, Wallet, Merchant}
use paycore_backend.Database.{Db}
use paycore_backend.Session.{Env, Session, IsClean}
use paycore_backend.Repositories.Wallet.{wallet_id, get_by_user_id}
use paycore_backend.Repositories.Transaction.{get_by_key_if_given}
use paycore_backend.Services.Fraud.{maybe_flag_merchant_payment}
use paycore_backend.Services.Audit
use paycore_backend.Repositories.WebhookDelivery.{create_delivery}
use paycore_backend.Services.WebhookDelivery.{create_and_enqueue}
use paycore_backend.Services.Locking.{Plan, existing, movement, lock_funded}
use paycore_backend.Services.MerchantPayment.{
  resolve_merchant, resolve_wallets, check_and_lock, payment_plan, report_payment, carry_out,
  initiate_payment,
}
use paycore_backend.Settlement.{IsFunded, Settles, rejected, replayed}
use paycore_backend.Settlement.Plan.{lock_funded-IsFunded, wallets_apart, get-get_by_user_id}
use paycore_backend.Settlement.Posting.{IsReport, post_movement-Settles}

report_payment-IsReport :
    (env : Env) (payer : User) (profile : Merchant) (amount : ℕ)
    → IsReport (report_payment env payer profile amount)
unfolding report_payment maybe_flag_merchant_payment create_and_enqueue create_delivery Audit.log
report_payment-IsReport env payer profile amount = record {
  on_replayed = λ t s. refl;
  on_posted = λ t s clean. ground arith;
}

resolve_wallets-eq-ok :
    (payer : User) (profile : Merchant) (db : Db) {a b : Wallet}
    → resolve_wallets payer profile db ≡ ok (a, b)
    → (get_by_user_id payer.id db ≡ some a)
      × (payer.id ≢ profile.user_id)
      × (get_by_user_id profile.user_id db ≡ some b)
unfolding resolve_wallets
resolve_wallets-eq-ok payer profile db {a} {b} e = (ground arith, ground arith, ground arith)

check_and_lock-movement :
    (env : Env) (payer : User) (a b f g : Wallet) (amount : ℕ) (used : Option Transaction) (db : Db)
    → check_and_lock env payer a b amount used db ≡ ok (movement f g)
    → lock_funded a.id b.id amount db ≡ ok (movement f g)
unfolding check_and_lock
check_and_lock-movement env payer a b f g amount used db e = ground arith

check_and_lock-existing :
    (env : Env) (payer : User) (a b : Wallet) (t : Transaction) (amount : ℕ)
    (used : Option Transaction) (db : Db)
    → check_and_lock env payer a b amount used db ≡ ok (existing t)
    → used ≡ some t
unfolding check_and_lock lock_funded
check_and_lock-existing env payer a b t amount used db e = ground arith

module _ (env : Env) (payer : User) (merchant_id amount : ℕ) (key : Option String) (db : Db) where
  pub payment_plan-eq-ok :
      (m : Merchant) (p : Plan)
      → payment_plan env payer merchant_id amount key db ≡ ok (m, p)
      → (w : Wallet × Wallet) × (resolve_wallets payer m db ≡ ok w)
        × (check_and_lock env payer w.0 w.1 amount (get_by_key_if_given key db) db ≡ ok p)
  unfolding payment_plan
  payment_plan-eq-ok m p e = elim (Result-cases (resolve_merchant merchant_id db)) [
    | inl (x, bad) ↦ absurd (ground arith)
    | inr (n, found) ↦ elim (Result-cases (resolve_wallets payer n db)) [
      | inl (x, bad) ↦ absurd (ground arith)
      | inr (w, resolved) ↦ (w, ground arith, ground arith)
    ]
  ]

  plan-existing :
      (m : Merchant) (t : Transaction)
      → payment_plan env payer merchant_id amount key db ≡ ok (m, existing t)
      → get_by_key_if_given key db ≡ some t
  plan-existing m t e =
      let (w, resolved, rest) = payment_plan-eq-ok m (existing t) e in
      check_and_lock-existing env payer w.0 w.1 t amount (get_by_key_if_given key db) db rest

  plan-movement :
      (m : Merchant) (f g : Wallet)
      → IsKeyed wallet_id db.wallets
      → payment_plan env payer merchant_id amount key db ≡ ok (m, movement f g)
      → IsFunded payer.id amount f g db.books
  plan-movement m f g keyed e =
      let (w, resolved, rest) = payment_plan-eq-ok m (movement f g) e in
      let (a, b) = w in
      let (mine, other, theirs) = resolve_wallets-eq-ok payer m db resolved in
      let (there, user) = get-get_by_user_id db keyed payer.id mine in
      subst (λ u. IsFunded u amount f g db.books) user
        (lock_funded-IsFunded db keyed a b amount there
          (wallets_apart db keyed payer.id m.user_id a b mine theirs other)
          (check_and_lock-movement env payer a b f g amount (get_by_key_if_given key db) db rest))

module _ (env : Env) (payer : User) (merchant_id amount : ℕ) (key : Option String)
    (s : Session) where
  carry_out-Settles :
      (m : Merchant) (p : Plan)
      → IsClean s
      → IsKeyed wallet_id s.committed.wallets
      → payment_plan env payer merchant_id amount key s.committed ≡ ok (m, p)
      → let (r, s') = carry_out env payer amount key (m, p) s in
        Settles env payer.id merchant_payment amount key s r s'
  unfolding carry_out
  carry_out-Settles m (existing t) clean keyed planned =
      replayed t (plan-existing env payer merchant_id amount key s.committed m t planned) refl refl
  carry_out-Settles m (movement f g) clean keyed planned =
      post_movement-Settles env payer.id merchant_payment amount key s clean f g
        (plan-movement env payer merchant_id amount key s.committed m f g keyed planned)
        (report_payment env payer m amount) (report_payment-IsReport env payer m amount)

  abbrev outcome : Result Transaction × Session
  outcome = initiate_payment env payer merchant_id amount key s

  -- Every payment request on a session without pending writes, whose wallets have distinct ids,
  -- settles: it raises and leaves the committed books alone, answers with the earlier transaction
  -- of the same key, or commits the whole movement from a wallet of the payer that covers it to a
  -- different wallet.
  pub initiate_payment-Settles :
      IsClean s
      → IsKeyed wallet_id s.committed.wallets
      → Settles env payer.id merchant_payment amount key s outcome.0 outcome.1
  unfolding initiate_payment
  initiate_payment-Settles clean keyed =
      elim (Result-cases (payment_plan env payer merchant_id amount key s.db)) [
        | inl (e, failed) ↦ rw failed (rejected e refl refl)
        | inr ((m, p), planned) ↦ rw planned (
            carry_out-Settles m p clean keyed (
              subst (λ db. payment_plan env payer merchant_id amount key db ≡ ok (m, p)) clean
                planned))
      ]
