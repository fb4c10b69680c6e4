-- ===== src/System.antt =====
-- The whole of the modelled money flows as one transition system. A state is a session between two
-- requests; a step is one request, webhook event or task, run in a session of its own with an
-- environment of its own (a later clock, other answers of Paystack).
use paycore_backend.Base.{ℕ, String, Option, none, some, ◌≡◌, refl}
use paycore_backend.Models.Transaction.{Transaction}
use paycore_backend.Models.Rows.{User}
use paycore_backend.Session.{Env, Session, request}
use paycore_backend.Services.Auth.{register}
use paycore_backend.Services.WalletFunding.{initiate_funding}
use paycore_backend.Flows.Opening.{initiate_funding-Sound}
use paycore_backend.Flows.Registration.{register-Sound}
use paycore_backend.Repositories.Transaction
use paycore_backend.Services.Transfer.{Recipient, initiate_transfer}
use paycore_backend.Services.MerchantPayment.{initiate_payment}
use paycore_backend.Services.Withdrawal.{initiate_withdrawal}
use paycore_backend.Services.Withdrawal.Payout.{process_transfer_result}
use paycore_backend.Services.Withdrawal.Execution.{execute_payout}
use paycore_backend.Services.PaystackWebhook.{ChargeData, process_charge_success}
use paycore_backend.Workers.Reconciliation.{reconcile_funding}
use paycore_backend.Books.{IsSound}
use paycore_backend.Settlement.Transfer.{initiate_transfer-Settles}
use paycore_backend.Settlement.MerchantPayment.{initiate_payment-Settles}
use paycore_backend.Settlement.Laws.{Settles-IsSound}
use paycore_backend.Flows.{request-Sound}
use paycore_backend.Flows.Tasks.{dispatch_event-IsSound}
use paycore_backend.Workers.Tasks.{dispatch_event}
use paycore_backend.Flows.Withdrawal.{initiate_withdrawal-Holds, Holds-IsSound}
use paycore_backend.Flows.Funding.{process_charge_success-Sound}
use paycore_backend.Flows.Payout.{process_transfer_result-Sound}
use paycore_backend.Flows.Execution.{execute_payout-Sound}
use paycore_backend.Flows.Reconciliation.{reconcile_funding-IsSound}

pub data Step (s : Session) : Session → Type 0 where
  registered :
      (env : Env) (email password full_name : String) (phone : Option String)
      → Step s (request (register env email password full_name phone) s).1
  funding_requested :
      (env : Env) (payer : User) (amount : ℕ) (key : Option String)
      → Step s (request (initiate_funding env payer amount key) s).1
  transfer_requested :
      (env : Env) (sender : User) (to : Recipient) (amount : ℕ) (key : Option String)
      → Step s (request (initiate_transfer env sender to amount key) s).1
  payment_requested :
      (env : Env) (payer : User) (merchant amount : ℕ) (key : Option String)
      → Step s (request (initiate_payment env payer merchant amount key) s).1
  withdrawal_requested :
      (env : Env) (owner : User) (account amount : ℕ)
      → Step s (request (initiate_withdrawal env owner account amount) s).1
  payout_executed : (env : Env) (id : ℕ) → Step s (request (execute_payout env id) s).1
  charge_reported :
      (env : Env) (charge : ChargeData) → Step s (request (process_charge_success env charge) s).1
  -- The task behind Paystack's webhook.
  event_dispatched :
      (env : Env) (event_type : String) (charge : ChargeData) (transfer_code : String)
      → Step s (dispatch_event env event_type charge transfer_code s).1
  payout_reported :
      (env : Env) (event reference transfer_code : String)
      → Step s (request (process_transfer_result env event reference transfer_code) s).1
  -- The sweep picks fundings, which take from no wallet.
  funding_reconciled :
      (env : Env) (id : ℕ) (answer : Option ChargeData)
      → ((t : Transaction)
          → Transaction.get_by_id id s.committed ≡ some t
          → t.source_wallet_id ≡ none)
      → Step s (reconcile_funding env id answer s).1

pub data Reach (s : Session) : Session → Type 0 where
  start : Reach s s
  next : {s' s'' : Session} → Reach s s' → Step s' s'' → Reach s s''

-- One step keeps the committed books sound.
pub Step-IsSound :
    {s s' : Session} → Step s s' → IsSound s.committed.books → IsSound s'.committed.books
Step-IsSound {s} (registered env email password full_name phone) h =
    request-Sound (register env email password full_name phone) s h
      (register-Sound env email password full_name phone)
Step-IsSound {s} (funding_requested env payer amount key) h =
    request-Sound (initiate_funding env payer amount key) s h
      (initiate_funding-Sound env payer amount key)
Step-IsSound {s} (transfer_requested env sender to amount key) h =
    Settles-IsSound env _ _ _ _ _
      (initiate_transfer-Settles env sender to amount key (record s { db = s.committed }) refl
        h.wallets_keyed)
      h
Step-IsSound {s} (payment_requested env payer merchant amount key) h =
    Settles-IsSound env _ _ _ _ _
      (initiate_payment-Settles env payer merchant amount key (record s { db = s.committed }) refl
        h.wallets_keyed)
      h
Step-IsSound {s} (withdrawal_requested env owner account amount) h =
    Holds-IsSound env owner account amount (record s { db = s.committed })
      (initiate_withdrawal-Holds env owner account amount (record s { db = s.committed }) refl
        h.wallets_keyed)
      h
Step-IsSound {s} (payout_executed env id) h =
    request-Sound (execute_payout env id) s h (execute_payout-Sound env id)
Step-IsSound {s} (charge_reported env charge) h =
    request-Sound (process_charge_success env charge) s h (process_charge_success-Sound env charge)
Step-IsSound {s} (event_dispatched env event_type charge code) h =
    dispatch_event-IsSound env event_type charge code s h
Step-IsSound {s} (payout_reported env event reference code) h =
    request-Sound (process_transfer_result env event reference code) s h
      (process_transfer_result-Sound env event reference code)
Step-IsSound {s} (funding_reconciled env id answer no_source) h =
    reconcile_funding-IsSound env id answer s no_source h

-- Whatever registrations, requests, payout tasks, Paystack events and reconciliations run, in
-- whatever order and with whatever outcome, the committed books stay sound if they were so at the
-- start: for each wallet, its balance, its debits and its holds in flight add up to its credits.
pub Reach-IsSound :
    {s s' : Session} → IsSound s.committed.books → Reach s s' → IsSound s'.committed.books
Reach-IsSound h start = h
Reach-IsSound h (next before step) = Step-IsSound step (Reach-IsSound h before)
