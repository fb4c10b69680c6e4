-- ===== src/Flows/Reconciliation.antt =====
-- The sweep over stale transactions (Workers/Reconciliation) keeps the books sound.
use paycore_backend.Base.{ℕ, ◌≡◌, true, false, Option, none, some, String, arith, refl, inl, str_eq}
use Prim.Native.String.{◌++◌}
use paycore_backend.Base.Table.{get, get-put_self}
use paycore_backend.Models.Transaction.{
  Transaction, TransactionStatus, pending, processing, failed, is_status, valid_transition,
}
use paycore_backend.Session.{Env, Session}
use paycore_backend.Repositories.Transaction.{
  transaction_id, get_by_id, update_status_lem, with_status, put_transaction,
}
use paycore_backend.Services.PaystackWebhook.{ChargeData, process_charge_success}
use paycore_backend.Workers.Reconciliation.{fail_funding, apply_verification, reconcile_funding}
use paycore_backend.Books.{IsSound, OneSided}
use paycore_backend.Books.Steps.{restated-IsSound}
use paycore_backend.Flows.{Sound, found-facts, resume-Sound, if-Sound, committed-Sound}
use paycore_backend.Flows.Funding.{started-Sound, process_charge_success-Sound}

-- A transaction in flight without a source is rewritten to FAILED.
dropped-IsSound :
    (t : Transaction) (reason : String) (s : Session)
    → Sound s
    → get transaction_id t.id s.db.transactions ≡ some t
    → t.source_wallet_id ≡ none
    → IsSound (put_transaction (with_status t failed (some reason)) s.db.books)
unfolding with_status
dropped-IsSound t reason s h there no_source =
    restated-IsSound s.db.books h.seen (with_status t failed (some reason)) t there
      (λ i. ground arith) (inl refl)

module _ (env : Env) where
  fail_funding-Sound :
      (answer : String) (t : Transaction) (status : TransactionStatus) (s : Session)
      → t.status ≡ status
      → get transaction_id t.id s.db.transactions ≡ some t
      → OneSided t
      → t.source_wallet_id ≡ none
      → Sound s
      → Sound (fail_funding env answer (some t) s).1
  unfolding fail_funding valid_transition put_transaction with_status
  fail_funding-Sound answer t pending s e there one_sided no_source h =
      let waiting : is_status t.status pending ≡ true = ground arith in
      let valid : valid_transition t.status processing ≡ true = ground arith in
      let started = with_status t processing none in
      let dropped =
        dropped-IsSound started ("Paystack reconciliation: status=" ++ answer) _
          (started-Sound s h t there one_sided e)
          (get-put_self transaction_id started s.db.transactions there) no_source in
      rw (waiting, update_status_lem t processing none s, valid, update_status_lem started failed)
        (record { seen = dropped; durable = dropped })
  fail_funding-Sound answer t _ s e there one_sided no_source h =
      let past : is_status t.status pending ≡ false = ground arith in rw past h

  found-Sound :
      (answer : String) (found : Option Transaction) (id : ℕ) (s : Session)
      → get_by_id id s.db ≡ found
      → ((t : Transaction) → get_by_id id s.db ≡ some t → t.source_wallet_id ≡ none)
      → Sound s
      → Sound (fail_funding env answer found s).1
  unfolding fail_funding get_by_id
  found-Sound answer none id s e no_source h = h
  found-Sound answer (some t) id s e no_source h =
      let (there, one_sided) = found-facts s.db.books _ h.seen e in
      fail_funding-Sound answer t t.status s refl there one_sided (no_source t e) h

  -- What is done with Paystack's answer.
  apply_verification-Sound :
      (id : ℕ) (answer : ChargeData) (s : Session)
      → ((t : Transaction) → get_by_id id s.db ≡ some t → t.source_wallet_id ≡ none)
      → Sound s
      → Sound (apply_verification env id answer s).1
  unfolding apply_verification
  apply_verification-Sound id answer s no_source h =
      if-Sound (str_eq answer.status "success") _ _ s
        (resume-Sound (process_charge_success env answer s) _
          (process_charge_success-Sound env answer s h)
          λ _ e. committed-Sound _ (process_charge_success-Sound env answer s h))
        (found-Sound answer.status _ id s refl no_source h)

  -- Reconciling a transaction that takes from no wallet keeps sound committed books sound, whatever
  -- Paystack answers.
  pub reconcile_funding-IsSound :
      (id : ℕ) (answer : Option ChargeData) (s : Session)
      → ((t : Transaction) → get_by_id id s.committed ≡ some t → t.source_wallet_id ≡ none)
      → IsSound s.committed.books
      → IsSound (reconcile_funding env id answer s).1.committed.books
  unfolding reconcile_funding
  reconcile_funding-IsSound id none s no_source h = h
  reconcile_funding-IsSound id (some answer) s no_source h =
      (apply_verification-Sound id answer (record s { db = s.committed }) no_source
        (record { seen = h; durable = h })).durable
