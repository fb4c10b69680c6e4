-- ===== src/Settlement/Idempotency.antt =====
-- A key that was used before answers a request: nothing is written, nothing is enqueued.
use paycore_backend.Base.{ℕ, ◌≡◌, ◌⊎◌, inl, inr, Option, some, String, refl, arith}
use paycore_backend.Core.Errors.{AppError, Result, ok, err, Result-cases}
use paycore_backend.Models.Transaction.{Transaction}
use paycore_backend.Models.Rows.{User, Wallet}
use paycore_backend.Session.{Env, Session}
use paycore_backend.Repositories.Transaction.{get_by_key_if_given}
use paycore_backend.Services.Locking.{Plan, existing}
use paycore_backend.Services.Transfer
use paycore_backend.Services.MerchantPayment
use paycore_backend.Settlement.Transfer.{transfer_plan-eq-ok}
use paycore_backend.Settlement.MerchantPayment.{payment_plan-eq-ok}

-- The answer is the earlier transaction or an error of the guards before the key is looked up.
abbrev pub Answers : Transaction → Result Transaction → Type 0
Answers t r = (r ≡ ok t) ⊎ ((e : AppError) × (r ≡ err e))

module _ (env : Env) (amount : ℕ) (key : Option String) (s : Session) (t : Transaction)
    (used : get_by_key_if_given key s.db ≡ some t) where
  transfer-again :
      (sender : User) (a b : Wallet) (p : Plan)
      → Transfer.check_and_lock env sender a b amount (get_by_key_if_given key s.db) s.db ≡ ok p
      → p ≡ existing t
  unfolding Transfer.check_and_lock
  transfer-again sender a b p e = ground arith

  payment-again :
      (payer : User) (a b : Wallet) (p : Plan)
      → MerchantPayment.check_and_lock env payer a b amount (get_by_key_if_given key s.db) s.db
        ≡ ok p
      → p ≡ existing t
  unfolding MerchantPayment.check_and_lock
  payment-again payer a b p e = ground arith

  -- A transfer whose key was used before leaves the session as it is, tables, queue and all, and
  -- answers with the earlier transaction or an error.
  pub initiate_transfer-replays :
      (sender : User) (to : Transfer.Recipient)
      → ((Transfer.initiate_transfer env sender to amount key s).1 ≡ s)
        × Answers t (Transfer.initiate_transfer env sender to amount key s).0
  unfolding Transfer.initiate_transfer Transfer.carry_out
  initiate_transfer-replays sender to =
      elim (Result-cases (Transfer.transfer_plan env sender to amount key s.db)) [
        | inl (e, failed) ↦ rw failed (refl, inr (e, refl))
        | inr (p, planned) ↦
            let (w, resolved, rest) = transfer_plan-eq-ok env sender to amount key s.db planned in
            rw (planned, transfer-again sender w.0 w.1 p rest) (refl, inl refl)
      ]

  -- A payment whose key was used before leaves the session as it is, tables, queue and all, and
  -- answers with the earlier transaction or an error.
  pub initiate_payment-replays :
      (payer : User) (merchant : ℕ)
      → ((MerchantPayment.initiate_payment env payer merchant amount key s).1 ≡ s)
        × Answers t (MerchantPayment.initiate_payment env payer merchant amount key s).0
  unfolding MerchantPayment.initiate_payment MerchantPayment.carry_out
  initiate_payment-replays payer merchant =
      elim (Result-cases (MerchantPayment.payment_plan env payer merchant amount key s.db)) [
        | inl (e, failed) ↦ rw failed (refl, inr (e, refl))
        | inr ((m, p), planned) ↦
            let (w, resolved, rest) =
              payment_plan-eq-ok env payer merchant amount key s.db m p planned in
            rw (planned, payment-again payer w.0 w.1 p rest) (refl, inl refl)
      ]
