-- ===== src/Repositories/People.antt =====
-- The reads of app/repositories/user.py, merchant.py and bank_account.py that the money services
-- make.
use paycore_backend.Base.{ℕ, String, ◌&&◌, Option, some, ◌==◌, str_eq, is_none}
use paycore_backend.Base.Table.{find, put}
use paycore_backend.Models.Rows.{User, Merchant, BankAccount}
use paycore_backend.Database.{Db}
use paycore_backend.Session.{Env, Action, pure, modify, ◌>>◌}

unfoldable pub get_user_by_id : ℕ → Db → Option User
get_user_by_id i db = find (λ u. u.id == i && is_none u.deleted_at) db.users

unfoldable pub get_user_by_email : Env → String → Db → Option User
get_user_by_email env email db =
    find (λ u. str_eq u.email (env.lower_strip email) && is_none u.deleted_at) db.users

unfoldable pub get_merchant_by_id : ℕ → Db → Option Merchant
get_merchant_by_id i db = find (λ m. m.id == i && is_none m.deleted_at) db.merchants

unfoldable pub get_bank_account_by_id : ℕ → Db → Option BankAccount
get_bank_account_by_id i db = find (λ a. a.id == i && is_none a.deleted_at) db.bank_accounts

abbrev pub merchant_id : Merchant → ℕ
merchant_id m = m.id

abbrev pub bank_account_id : BankAccount → ℕ
bank_account_id a = a.id

-- `BankAccountRepository.set_recipient_code`
unfoldable pub set_recipient_code : BankAccount → String → Action BankAccount
set_recipient_code account code = do
  let updated : BankAccount = record account { paystack_recipient_code = some code }
  modify (λ db. record db { bank_accounts = put bank_account_id updated db.bank_accounts })
  pure updated
