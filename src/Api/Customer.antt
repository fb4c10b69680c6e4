-- ===== src/Api/Customer.antt =====
-- app/api/v1/users.py, kyc.py, merchants.py, transactions.py, transfers.py, wallets.py and
-- withdrawals.py: the endpoints of a user who is logged in. Each asks `get_current_user` for its
-- caller first. Rendering is left out.
use paycore_backend.Base.{ℕ, String, Bool, not, Option, List}
use paycore_backend.Core.Deps.{get_current_user}
use paycore_backend.Core.Errors.{not_found, forbidden}
use paycore_backend.Core.Errors as Errors
use paycore_backend.Models.Rows.{User, Merchant, BankAccount}
use paycore_backend.Models.Rows
use paycore_backend.Models.Access.{KycSubmission}
use paycore_backend.Models.Transaction.{Transaction, TransactionType, TransactionStatus}
use paycore_backend.Database.{Query, ask, answer, raise_if, or_raise_unless}
use paycore_backend.Database as Database
use paycore_backend.Session.{Env, Action, query, pure, ◌>>=◌}
use paycore_backend.Repositories.Transaction.{get_by_reference}
use paycore_backend.Services.User.{update_profile}
use paycore_backend.Services.Kyc.{submit_kyc, get_my_submission}
use paycore_backend.Services.Merchant as MerchantService
use paycore_backend.Services.MerchantPayment.{initiate_payment}
use paycore_backend.Services.Transaction as TransactionService
use paycore_backend.Services.Transfer.{Recipient, initiate_transfer}
use paycore_backend.Services.Wallet.{get_wallet}
use paycore_backend.Services.WalletFunding.{WalletFundingOut, initiate_funding}
use paycore_backend.Services.BankAccounts as BankAccounts
use paycore_backend.Services.Withdrawal.{initiate_withdrawal}

module _ {A : Type 0} where
  -- `Depends(get_current_user)`
  unfoldable pub as_user : Env → String → (User → Action A) → Action A
  as_user env token endpoint = do
    current_user ← query (get_current_user env token)
    endpoint current_user

unfoldable pub get_my_profile : Env → String → Action User
get_my_profile env token = as_user env token λ u. (pure u)

unfoldable pub update_my_profile : Env → String → Option String → Option String → Action User
update_my_profile env token full_name phone =
    as_user env token λ u. (update_profile u.id full_name phone)

unfoldable pub submit_my_kyc : Env → String → ℕ → List ℕ → String → Action KycSubmission
submit_my_kyc env token target_tier file_bytes filename =
    as_user env token λ u. (submit_kyc env u target_tier file_bytes filename)

unfoldable pub get_my_kyc : Env → String → Action KycSubmission
get_my_kyc env token = as_user env token λ u. (query (get_my_submission u.id))

unfoldable pub create_my_merchant : Env → String → String → Action (Merchant × String)
create_my_merchant env token business_name =
    as_user env token λ u. (MerchantService.create_merchant env u business_name)

unfoldable pub get_my_merchant : Env → String → Action Merchant
get_my_merchant env token =
    as_user env token λ u. (query (MerchantService.get_merchant_profile u.id))

unfoldable pub rotate_my_api_key : Env → String → Action (Merchant × String)
rotate_my_api_key env token = as_user env token λ u. (MerchantService.rotate_api_key env u.id)

unfoldable pub update_my_webhook : Env → String → Option String → Bool → Action Merchant
update_my_webhook env token webhook_url regenerate_secret =
    as_user env token
      λ u. (MerchantService.update_webhook_config env u.id webhook_url regenerate_secret)

unfoldable pub pay_merchant : Env → String → ℕ → ℕ → Option String → Action Transaction
pay_merchant env token merchant_id amount idempotency_key =
    as_user env token λ u. (initiate_payment env u merchant_id amount idempotency_key)

unfoldable pub list_my_transactions :
    Env
    → String
    → ℕ
    → ℕ
    → Option TransactionType
    → Option TransactionStatus
    → Action (List Transaction × ℕ)
list_my_transactions env token limit offset type status =
    as_user env token
      λ u. (query (TransactionService.list_transactions u.id limit offset type status))

unfoldable pub get_my_transaction : Env → String → String → Action Transaction
get_my_transaction env token reference =
    as_user env token λ u. (query (TransactionService.get_transaction reference u.id))

unfoldable pub transfer : Env → String → Recipient → ℕ → Option String → Action Transaction
transfer env token recipient amount idempotency_key =
    as_user env token λ u. (initiate_transfer env u recipient amount idempotency_key)

unfoldable pub fund_wallet : Env → String → ℕ → Option String → Action WalletFundingOut
fund_wallet env token amount idempotency_key =
    as_user env token λ u. (initiate_funding env u amount idempotency_key)

unfoldable pub active_wallet : ℕ → Query Rows.Wallet
active_wallet user_id =
    Database.◌>>=◌ (get_wallet user_id)
      (λ wallet. Database.◌>>◌ (raise_if (not wallet.is_active) forbidden) (answer wallet))

unfoldable pub get_my_wallet : Env → String → Action Rows.Wallet
get_my_wallet env token = as_user env token λ u. (query (active_wallet u.id))

unfoldable pub get_my_transactions : Env → String → ℕ → ℕ → Action (List Transaction × ℕ)
get_my_transactions env token limit offset =
    as_user env token λ u. (query (TransactionService.get_statement u.id limit offset))

unfoldable pub add_my_bank_account :
    Env → String → String → String → String → String → Action BankAccount
add_my_bank_account env token account_name account_number bank_code bank_name =
    as_user env token
      λ u. (BankAccounts.add_bank_account env u account_name account_number bank_code bank_name)

unfoldable pub list_my_bank_accounts : Env → String → Action (List BankAccount)
list_my_bank_accounts env token = as_user env token λ u. (query (BankAccounts.list_bank_accounts u))

unfoldable pub remove_my_bank_account : Env → String → ℕ → Action (Unit {0})
remove_my_bank_account env token bank_account_id =
    as_user env token λ u. (BankAccounts.remove_bank_account env u bank_account_id)

unfoldable pub withdraw : Env → String → ℕ → ℕ → Action Transaction
withdraw env token bank_account_id amount =
    as_user env token λ u. (initiate_withdrawal env u bank_account_id amount)

unfoldable pub withdrawal_of : String → ℕ → Query Transaction
withdrawal_of reference user_id = Database.◌>>=◌ (ask (get_by_reference reference)) (λ found.
    or_raise_unless (TransactionService.is_initiated_by user_id) found
      (not_found Errors.withdrawal))

unfoldable pub get_withdrawal_status : Env → String → String → Action Transaction
get_withdrawal_status env token reference =
    as_user env token λ u. (query (withdrawal_of reference u.id))
