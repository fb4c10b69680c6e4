-- ===== src/Workers/Reconciliation.antt =====
-- app/workers/reconciliation_tasks.py: the sweep over stale PENDING transactions.
use Prim.Native.String.{◌++◌}
use paycore_backend.Base.{
  ℕ, ◌-◌, String, Bool, not, ◌&&◌, Option, none, some, List, [], ◌∷◌, leb, str_eq, is_none,
  if◌then◌else◌,
}
use paycore_backend.Base.Table.{select, take}
use paycore_backend.Models.Transaction.{
  Transaction, funding, withdrawal, pending, processing, failed, is_type, is_status,
}
use paycore_backend.Database.{ask}
use paycore_backend.Session.{
  Env, Action, pure, query, request, attempt, commit, delay, process_withdrawal, ◌>>=◌, ◌>>◌,
}
use paycore_backend.Repositories.Transaction.{get_by_id, update_status}
use paycore_backend.Services.PaystackWebhook.{ChargeData, process_charge_success}

-- STALE_THRESHOLD_MINUTES, in seconds, and BATCH_LIMIT.
abbrev pub stale_threshold_seconds : ℕ
stale_threshold_seconds = 1800

abbrev pub batch_limit : ℕ
batch_limit = 50

unfoldable pub is_stale_funding : ℕ → Transaction → Bool
is_stale_funding cutoff t =
    is_type t.type funding
    && is_status t.status pending
    && not (is_none t.provider_reference)
    && leb t.created_at cutoff

unfoldable pub is_stale_withdrawal : ℕ → Transaction → Bool
is_stale_withdrawal cutoff t =
    is_type t.type withdrawal && is_status t.status pending && leb t.created_at cutoff

-- A payment that Paystack does not report as a success: PENDING → PROCESSING → FAILED. The quotes
-- round the status in the reason are left out.
unfoldable pub fail_funding : Env → String → Option Transaction → Action (Unit {0})
fail_funding env paystack_status none = pure tt
fail_funding env paystack_status (some txn) =
    if is_status txn.status pending
    then (do
      started ← update_status txn processing none none
      update_status started failed (some ("Paystack reconciliation: status=" ++ paystack_status))
          none
      commit)
    else pure tt

-- The body of the `try` once Paystack has answered; the last `commit` is the source's own.
unfoldable pub apply_verification : Env → ℕ → ChargeData → Action (Unit {0})
apply_verification env txn_id answer =
    if str_eq answer.status "success"
    then (do process_charge_success env answer; commit)
    else (do found ← query (ask (get_by_id txn_id)); fail_funding env answer.status found)

-- `_reconcile_funding`: what Paystack answers to `verify_transaction`, `none` if the call fails. Any
-- exception is logged, and the session is dropped with what it did not commit.
unfoldable pub reconcile_funding : Env → ℕ → Option ChargeData → Action (Unit {0})
reconcile_funding env txn_id none = pure tt
reconcile_funding env txn_id (some answer) =
    attempt (request (apply_verification env txn_id answer))

unfoldable pub verify_reference : (String → Option ChargeData) → Option String → Option ChargeData
verify_reference verify none = none
verify_reference verify (some reference) = verify reference

unfoldable pub reconcile_batch :
    Env → (String → Option ChargeData) → List Transaction → Action (Unit {0})
unfolding verify_reference
reconcile_batch env verify [] = pure tt
reconcile_batch env verify (t ∷ rest) = do
  reconcile_funding env t.id (verify_reference verify t.provider_reference)
  reconcile_batch env verify rest

unfoldable pub enqueue_batch : Env → List Transaction → Action (Unit {0})
enqueue_batch env [] = pure tt
enqueue_batch env (t ∷ rest) = do delay env (process_withdrawal t.id); enqueue_batch env rest

-- `_reconcile`: verify each stale funding, then enqueue each stale withdrawal again.
unfoldable pub check_stale_transactions : Env → (String → Option ChargeData) → Action (Unit {0})
check_stale_transactions env verify s =
    let cutoff = env.now - stale_threshold_seconds in
    let stale = take batch_limit (select (is_stale_funding cutoff) s.committed.transactions) in
    (do
      reconcile_batch env verify stale
      found ←
          query (ask (λ db. take batch_limit (select (is_stale_withdrawal cutoff) db.transactions)))
      enqueue_batch env found)
      s
