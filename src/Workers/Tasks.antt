-- ===== src/Workers/Tasks.antt =====
-- app/workers/fraud_tasks.py, paystack_tasks.py and withdrawal_tasks.py, each task in a session of
-- its own. The text of a risk flag's reason is left out. Of an event's data, `charge` holds what the
-- handlers of charges read, and `charge.reference` and the transfer code what that of transfers reads.
use paycore_backend.Base.{ℕ, String, Bool, true, ◌||◌, Option, none, some, str_eq, if◌then◌else◌}
use paycore_backend.Models.Rows.{ActorType}
use paycore_backend.Models.Transaction.{Transaction}
use paycore_backend.Database.{ask}
use paycore_backend.Session.{Env, Action, pure, query, commit, modify_books, request, ◌>>=◌, ◌>>◌}
use paycore_backend.Repositories.Transaction.{get_by_id, put_transaction}
use paycore_backend.Services.Audit
use paycore_backend.Services.PaystackWebhook.{ChargeData, process_charge_success}
use paycore_backend.Services.Withdrawal.Payout.{process_transfer_result}
use paycore_backend.Services.Withdrawal.Execution.{execute_payout}

unfoldable pub flag_found : Env → Option Transaction → Action (Unit {0})
flag_found env none = pure tt
flag_found env (some txn) = if txn.risk_flagged then pure tt else (do
  modify_books (put_transaction (record txn { risk_flagged = true }))
  commit
  Audit.log env (some txn.initiated_by_user_id) ActorType.system "admin.transaction_flagged"
      "transaction" txn.id)

unfoldable pub flag_transaction_risk : Env → ℕ → Action (Unit {0})
flag_transaction_risk env transaction_id =
    request (do found ← query (ask (get_by_id transaction_id)); flag_found env found)

abbrev pub is_transfer_event : String → Bool
is_transfer_event event_type =
    str_eq event_type "transfer.success"
    || (str_eq event_type "transfer.failed" || str_eq event_type "transfer.reversed")

-- The handler of an event; an event of another type is logged.
unfoldable pub route_event : Env → String → ChargeData → String → Action (Unit {0})
route_event env event_type charge transfer_code =
    if str_eq event_type "charge.success"
    then process_charge_success env charge
    else (if is_transfer_event event_type
        then process_transfer_result env event_type charge.reference transfer_code
        else pure tt)

-- `paystack_tasks._dispatch`
unfoldable pub dispatch_event : Env → String → ChargeData → String → Action (Unit {0})
dispatch_event env event_type charge transfer_code =
    request (route_event env event_type charge transfer_code)

-- `withdrawal_tasks._dispatch`
unfoldable pub process_withdrawal : Env → ℕ → Action (Unit {0})
process_withdrawal env transaction_id = request (execute_payout env transaction_id)
