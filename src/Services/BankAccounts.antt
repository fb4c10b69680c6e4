-- ===== src/Services/BankAccounts.antt =====
-- app/services/withdrawal.py: `BankAccountVerificationService` and the management of bank accounts.
use paycore_backend.Base.{ℕ, String, Bool, Option, none, some, List, ◌==◌, str_eq, if◌then◌else◌}
use paycore_backend.Core.Errors.{forbidden}
use paycore_backend.Models.Transaction.{Transaction, ExtraData, bank_account_id, payment_url}
use paycore_backend.Models.Rows.{User, BankAccount}
use paycore_backend.Database.{Db, Query, answer, raise_if, ask}
use paycore_backend.Database as Database
use paycore_backend.Session.{Env, Action, pure, query, modify, commit, ◌>>=◌, ◌>>◌}
use paycore_backend.Repositories.People.{get_bank_account_by_id}
use paycore_backend.Repositories.BankAccount.{
  create_account, count_by_user, get_accounts_by_user_id, soft_delete_account,
}
use paycore_backend.Services.Withdrawal.{get_active_withdrawal, require_owned}

-- `data.get("account_name") or None`, where a failed call is `none` as well.
abbrev resolved_name : Option (Option String) → Option String
resolved_name none = none
resolved_name (some none) = none
resolved_name (some (some name)) = if str_eq name "" then none else some name

unfoldable pub verify_account : Env → String → String → Option String
verify_account env account_number bank_code =
    if str_eq env.paystack_secret_key ""
    then none
    else resolved_name (env.resolve_account account_number bank_code)

abbrev pub name_or : Option String → String → String
name_or none name = name
name_or (some verified) name = verified

unfoldable pub add_bank_account :
    Env → User → String → String → String → String → Action BankAccount
add_bank_account env owner account_name account_number bank_code bank_name = do
  let final_name = name_or (verify_account env account_number bank_code) account_name
  existing_count ← query (ask (count_by_user owner.id))
  account ←
      create_account env owner.id final_name account_number bank_code bank_name
        (existing_count == 0)
  commit
  pure account

unfoldable pub list_bank_accounts : User → Query (List BankAccount)
list_bank_accounts owner = ask (get_accounts_by_user_id owner.id)

abbrev pays_to : ℕ → Option ExtraData → Bool
pays_to i none = Bool.false
pays_to i (some (payment_url url)) = Bool.false
pays_to i (some (bank_account_id j)) = j == i

-- An active withdrawal to this account.
abbrev pub uses_account : ℕ → Option Transaction → Bool
uses_account i none = Bool.false
uses_account i (some t) = pays_to i t.extra_data

unfoldable pub removable : User → ℕ → Query BankAccount
removable owner account_id db =
    Database.◌>>=◌ (require_owned owner.id (get_bank_account_by_id account_id db))
      (λ account. Database.◌>>=◌ (get_active_withdrawal owner.id) (λ active.
        Database.◌>>◌ (raise_if (uses_account account_id active) forbidden) (answer account)))
      db

unfoldable pub remove_bank_account : Env → User → ℕ → Action (Unit {0})
remove_bank_account env owner account_id = do
  account ← query (removable owner account_id)
  modify (soft_delete_account env account)
  commit
