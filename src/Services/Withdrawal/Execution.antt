-- ===== src/Services/Withdrawal/Execution.antt =====
-- app/services/withdrawal.py, `execute_payout`, which the Celery task `process_withdrawal` runs.
use paycore_backend.Base.{
  ℕ, String, not, ◌||◌, ◌&&◌, Option, none, some, ◌∷◌, str_eq, is_none, if◌then◌else◌,
}
use paycore_backend.Core.Errors.{external_service}
use paycore_backend.Models.Transaction.{
  Transaction, ExtraData, bank_account_id, payment_url, pending, processing, completed, failed,
  is_status,
}
use paycore_backend.Models.Rows.{BankAccount}
use paycore_backend.Database.{ask}
use paycore_backend.Session.{
  Env, Action, Payout, pure, raise, query, commit, modify_books, ◌>>=◌, ◌>>◌,
}
use paycore_backend.Repositories.Transaction.{get_by_id, update_status, put_transaction}
use paycore_backend.Repositories.People.{get_bank_account_by_id, set_recipient_code}

-- Paystack's answer to `create_transfer_recipient`: a failed call and an empty code both raise.
unfoldable pub keep_recipient : BankAccount → Option String → Action String
keep_recipient account none = raise external_service
keep_recipient account (some code) =
    if str_eq code "" then raise external_service else do set_recipient_code account code; pure code

create_recipient : Env → BankAccount → Action String
create_recipient env account =
    keep_recipient account
      (env.create_transfer_recipient account.account_name account.account_number account.bank_code)

-- The recipient code: the one cached on the account, or a new one.
unfoldable pub ensure_recipient : Env → BankAccount → Option String → Action String
unfolding create_recipient
ensure_recipient env account none = create_recipient env account
ensure_recipient env account (some code) =
    if str_eq code "" then create_recipient env account else pure code

-- Paystack's answer to `initiate_transfer`.
unfoldable pub take_transfer_code : Option String → Action String
take_transfer_code none = raise external_service
take_transfer_code (some code) = pure code

-- `PaystackClient.initiate_transfer`: the call is made, whatever becomes of the session.
unfoldable pub send_transfer : Env → Payout → Action String
send_transfer env payout s =
    take_transfer_code (env.initiate_transfer payout) (record s { payouts = payout ∷ s.payouts })

-- PENDING → PROCESSING, unless the transaction is past that.
unfoldable pub start_processing : Transaction → Action Transaction
start_processing txn =
    if is_status txn.status pending then update_status txn processing none none else pure txn

-- The transfer, and the reference that Paystack gives it. Amounts are kobo, so
-- `int(txn.amount * 100)` is the amount.
unfoldable pub send_payout : Env → String → Transaction → Action (Unit {0})
send_payout env recipient_code txn = do
  transfer_code ← send_transfer env (record {
    amount_kobo = txn.amount;
    recipient_code = recipient_code;
    reference = txn.reference;
  })
  modify_books (put_transaction (record txn { provider_reference = some transfer_code }))
  commit

unfoldable pub start_and_send : Env → Transaction → String → Action (Unit {0})
start_and_send env txn recipient_code = do
  started ← start_processing txn
  send_payout env recipient_code started

-- From the bank account on.
unfoldable pub dispatch_payout : Env → Transaction → BankAccount → Action (Unit {0})
dispatch_payout env txn account = do
  recipient_code ← ensure_recipient env account account.paystack_recipient_code
  start_and_send env txn recipient_code

unfoldable pub account_found : Env → Transaction → Option BankAccount → Action (Unit {0})
account_found env txn none = pure tt
account_found env txn (some account) = dispatch_payout env txn account

unfoldable pub payout_account : Env → Transaction → Option ExtraData → Action (Unit {0})
payout_account env txn none = pure tt
payout_account env txn (some (payment_url url)) = pure tt
payout_account env txn (some (bank_account_id account)) = do
  found ← query (ask (get_bank_account_by_id account))
  account_found env txn found

-- A payout that ended, or that was dispatched before, is left alone.
unfoldable pub payout_found : Env → Option Transaction → Action (Unit {0})
payout_found env none = pure tt
payout_found env (some txn) =
    if is_status txn.status completed || is_status txn.status failed
    then pure tt
    else if is_status txn.status processing && not (is_none txn.provider_reference)
    then pure tt
    else payout_account env txn txn.extra_data

unfoldable pub execute_payout : Env → ℕ → Action (Unit {0})
execute_payout env transaction_id = do
  found ← query (ask (get_by_id transaction_id))
  payout_found env found
