-- ===== src/Api/Admin.antt =====
-- app/api/v1/admin.py: each endpoint asks for the role "admin" first. Rendering is left out.
use paycore_backend.Base.{ℕ, String, Option, none, some, List, [], ◌∷◌}
use paycore_backend.Core.Deps.{require_role}
use paycore_backend.Core.Errors.{not_found}
use paycore_backend.Core.Errors as Errors
use paycore_backend.Models.Rows.{User, UserRole, ActorType, WebhookDelivery, LedgerEntry, AuditLog}
use paycore_backend.Models.Access.{KycSubmission, KycStatus}
use paycore_backend.Models.Transaction.{Transaction}
use paycore_backend.Database.{Query, ask, answer, or_raise}
use paycore_backend.Database as Database
use paycore_backend.Session.{Env, Action, query, delay, check_stale_transactions, ◌>>=◌, ◌>>◌}
use paycore_backend.Repositories.People.{get_user_by_id}
use paycore_backend.Repositories.User.{list_users, count_users}
use paycore_backend.Repositories.Kyc.{list_by_status}
use paycore_backend.Repositories.Transaction.{get_by_reference}
use paycore_backend.Repositories.Ledger.{get_by_transaction}
use paycore_backend.Repositories.Listing.{AdminFilter, list_admin, count_admin}
use paycore_backend.Repositories.WebhookDelivery.{list_deliveries, count_deliveries}
use paycore_backend.Repositories.AuditLog.{AuditFilter, list_entries, count_entries}
use paycore_backend.Services.Kyc as Kyc
use paycore_backend.Services.Audit

module _ {A : Type 0} where
  -- `Depends(require_role("admin"))`
  unfoldable pub as_admin : Env → String → (User → Action A) → Action A
  as_admin env token endpoint = do
    admin ← query (require_role env ("admin" ∷ []) token)
    endpoint admin

unfoldable pub list_audit_logs : Env → String → AuditFilter → ℕ → ℕ → Action (List AuditLog × ℕ)
list_audit_logs env token f limit offset =
    as_admin env token
      λ admin. (query (ask (λ db. (list_entries f limit offset db, count_entries f db))))

unfoldable pub list_webhook_deliveries : Env → String → ℕ → ℕ → Action (List WebhookDelivery × ℕ)
list_webhook_deliveries env token limit offset =
    as_admin env token
      λ admin. (query (ask (λ db. (list_deliveries limit offset db, count_deliveries db))))

unfoldable pub list_kyc_submissions :
    Env → String → Option KycStatus → ℕ → ℕ → Action (List KycSubmission × ℕ)
list_kyc_submissions env token status limit offset =
    as_admin env token λ admin. (query (ask (list_by_status status limit offset)))

-- The submission and the address of its document.
unfoldable pub submission_detail : Env → ℕ → Query (KycSubmission × String)
submission_detail env submission_id =
    Database.◌>>=◌ (Kyc.get_submission submission_id)
      (λ sub. Database.◌>>=◌ (Kyc.get_presigned_doc_url env sub) (λ doc_url. answer (sub, doc_url)))

unfoldable pub get_kyc_submission : Env → String → ℕ → Action (KycSubmission × String)
get_kyc_submission env token submission_id =
    as_admin env token λ admin. (query (submission_detail env submission_id))

unfoldable pub approve_submission : Env → String → ℕ → Action KycSubmission
approve_submission env token submission_id =
    as_admin env token λ admin. (Kyc.approve_kyc env submission_id admin)

unfoldable pub reject_submission : Env → String → ℕ → String → Action KycSubmission
reject_submission env token submission_id reason =
    as_admin env token λ admin. (Kyc.reject_kyc env submission_id admin reason)

unfoldable pub list_all_transactions :
    Env → String → AdminFilter → ℕ → ℕ → Action (List Transaction × ℕ)
list_all_transactions env token f limit offset =
    as_admin env token
      λ admin. (query (ask (λ db. (list_admin f limit offset db, count_admin f db))))

unfoldable pub transaction_detail : String → Query (Transaction × List LedgerEntry)
transaction_detail reference = Database.◌>>=◌ (ask (get_by_reference reference)) (λ found.
    Database.◌>>=◌ (or_raise found (not_found Errors.transaction))
      (λ txn. Database.◌>>=◌ (ask (get_by_transaction txn.id)) (λ entries. answer (txn, entries))))

unfoldable pub get_any_transaction : Env → String → String → Action (Transaction × List LedgerEntry)
get_any_transaction env token reference =
    as_admin env token λ admin. (query (transaction_detail reference))

-- The task is enqueued outside any `try`.
unfoldable pub run_reconciliation : Env → String → Action (Unit {0})
run_reconciliation env token = as_admin env token λ admin.
    (delay env check_stale_transactions
      >> Audit.write_entry env (some admin.id) ActorType.admin "admin.reconciliation_triggered" none
          none)

unfoldable pub list_all_users :
    Env → String → Option UserRole → Option ℕ → ℕ → ℕ → Action (List User × ℕ)
list_all_users env token role kyc_tier limit offset = as_admin env token λ admin.
    (query (ask (λ db. (list_users limit offset role kyc_tier db, count_users role kyc_tier db))))

unfoldable pub any_user : ℕ → Query User
any_user user_id =
    Database.◌>>=◌ (ask (get_user_by_id user_id)) (λ found. or_raise found (not_found Errors.user))

unfoldable pub get_any_user : Env → String → ℕ → Action User
get_any_user env token user_id = as_admin env token λ admin. (query (any_user user_id))
