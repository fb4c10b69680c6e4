-- ===== src/Repositories/BankAccount.antt =====
-- app/repositories/bank_account.py: the writes and lists that bank-account management makes.
-- The table is kept newest first, so the oldest row stands last.
use paycore_backend.Base.{
  ℕ, String, Bool, true, false, ◌&&◌, Option, none, some, List, [], ◌∷◌, map, ◌==◌, is_none,
  if◌then◌else◌,
}
use paycore_backend.Base.Table.{find, get, select, length, put, oldest_first}
use paycore_backend.Core.Errors.{integrity}
use paycore_backend.Models.Rows.{BankAccount}
use paycore_backend.Database.{Db}
use paycore_backend.Session.{Env, Action, pure, raise, modify, uuid4, ◌>>=◌, ◌>>◌}
use paycore_backend.Repositories.People.{bank_account_id}

abbrev pub is_live_of : ℕ → BankAccount → Bool
is_live_of user_id a = a.user_id == user_id && is_none a.deleted_at

unfoldable pub put_account : BankAccount → Db → Db
put_account a db = record db { bank_accounts = put bank_account_id a db.bank_accounts }

-- The primary key is UNIQUE.
unfoldable pub insert_account : BankAccount → Action BankAccount
insert_account account s =
    if is_none (get bank_account_id account.id s.db.bank_accounts)
    then (do modify (λ db. record db { bank_accounts = account ∷ db.bank_accounts }); pure account)
        s
    else raise integrity s

unfoldable pub create_account :
    Env → ℕ → String → String → String → String → Bool → Action BankAccount
create_account env user_id account_name account_number bank_code bank_name is_default = do
  id ← uuid4 env
  let account : BankAccount = record {
    id = id;
    user_id = user_id;
    account_name = account_name;
    account_number = account_number;
    bank_code = bank_code;
    bank_name = bank_name;
    is_default = is_default;
    paystack_recipient_code = none;
    deleted_at = none;
  }
  insert_account account

-- ORDER BY created_at ASC.
unfoldable pub get_accounts_by_user_id : ℕ → Db → List BankAccount
get_accounts_by_user_id user_id db = oldest_first (select (is_live_of user_id) db.bank_accounts)

unfoldable pub get_default : ℕ → Db → Option BankAccount
get_default user_id db = find (λ a. is_live_of user_id a && a.is_default) db.bank_accounts

unfoldable pub count_by_user : ℕ → Db → ℕ
count_by_user user_id db = length (select (is_live_of user_id) db.bank_accounts)

abbrev unset : ℕ → BankAccount → BankAccount
unset user_id a = if is_live_of user_id a then record a { is_default = false } else a

unfoldable pub unset_all_defaults : ℕ → Db → Db
unset_all_defaults user_id db = record db { bank_accounts = map (unset user_id) db.bank_accounts }

unfoldable pub set_default : BankAccount → Action BankAccount
set_default account = do
  modify (unset_all_defaults account.user_id)
  modify (put_account (record account { is_default = true }))
  pure (record account { is_default = true })

-- The first of the accounts that remain becomes the default.
unfoldable pub promote_first : List BankAccount → Db → Db
promote_first [] db = db
promote_first (a ∷ l) db = put_account (record a { is_default = true }) db

unfoldable pub soft_delete_account : Env → BankAccount → Db → Db
soft_delete_account env account db =
    if account.is_default
    then (let db' =
          put_account (record account { deleted_at = some env.now; is_default = false }) db in
        promote_first (get_accounts_by_user_id account.user_id db') db')
    else put_account (record account { deleted_at = some env.now }) db
