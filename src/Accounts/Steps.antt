-- ===== src/Accounts/Steps.antt =====
-- Adding and removing bank accounts (Services/BankAccounts), each in a request of its own.
use paycore_backend.Base.{
  ℕ, ◌≡◌, true, false, String, none, some, arith, refl, Bool-cases, Option-cases, inl, inr, ◌==◌,
  is_none,
}
use paycore_backend.Base.Table.{get, put, length, select, get-find, find-sat}
use paycore_backend.Core.Errors.{Result-cases, ok}
use paycore_backend.Models.Rows.{User, BankAccount}
use paycore_backend.Database.{Db}
use paycore_backend.Session.{Env, Session, request}
use paycore_backend.Repositories.People.{bank_account_id, get_bank_account_by_id}
use paycore_backend.Repositories.BankAccount.{
  is_live_of, count_by_user, insert_account, create_account, put_account, soft_delete_account,
}
use paycore_backend.Services.Withdrawal.{require_owned}
use paycore_backend.Services.BankAccounts.{
  verify_account, name_or, add_bank_account, removable, remove_bank_account,
}
use paycore_backend.Accounts.Default.{IsOneDefault, added-IsOneDefault, removed-IsOneDefault}
use paycore_backend.Accounts.Promotion.{removed-IsBereft, promote_first-IsOneDefault}

add-IsOneDefault :
    (env : Env) (owner : User) (account_name account_number bank_code bank_name : String)
    (s : Session)
    → IsOneDefault s.committed.bank_accounts
    → IsOneDefault
        (request
          (add_bank_account env owner account_name account_number bank_code bank_name)
          s).1.committed.bank_accounts
unfolding add_bank_account create_account insert_account count_by_user
add-IsOneDefault env owner account_name account_number bank_code bank_name s h =
    let final_name = name_or (verify_account env account_number bank_code) account_name in
    let rows = s.committed.bank_accounts in
    let new : BankAccount = record {
      id = env.uuid s.drawn;
      user_id = owner.id;
      account_name = final_name;
      account_number = account_number;
      bank_code = bank_code;
      bank_name = bank_name;
      is_default = length (select (is_live_of owner.id) rows) == 0;
      paystack_recipient_code = none;
      deleted_at = none;
    } in
    elim (Option-cases (get bank_account_id new.id rows)) [
      | inl e ↦ rw e (added-IsOneDefault rows h new e refl refl)
      | inr (_, e) ↦ rw e h
    ]

-- What a removal was let through with.
removable-eq-ok :
    (owner : User) (id : ℕ) (db : Db) {a : BankAccount}
    → removable owner id db ≡ ok a
    → get_bank_account_by_id id db ≡ some a
unfolding removable require_owned
removable-eq-ok owner id db {a} e = ground arith

soft_delete_account-IsOneDefault :
    (env : Env) (a : BankAccount) (db : Db)
    → IsOneDefault db.bank_accounts
    → get bank_account_id a.id db.bank_accounts ≡ some a
    → is_none a.deleted_at ≡ true
    → IsOneDefault (soft_delete_account env a db).bank_accounts
unfolding soft_delete_account put_account
soft_delete_account-IsOneDefault env a db h at here = elim (Bool-cases a.is_default) [
  | inl e ↦
      let deleted : BankAccount = record a { deleted_at = some env.now; is_default = false } in
      let db' : Db = record db { bank_accounts = put bank_account_id deleted db.bank_accounts } in
      rw e (
        promote_first-IsOneDefault a.user_id db'
          (removed-IsBereft db.bank_accounts a deleted h at here e refl refl))
  | inr e ↦ rw e (
      removed-IsOneDefault db.bank_accounts h a
        (record a { deleted_at = some env.now; is_default = false }) at e refl refl)
]

remove-IsOneDefault :
    (env : Env) (owner : User) (id : ℕ) (s : Session)
    → IsOneDefault s.committed.bank_accounts
    → IsOneDefault (request (remove_bank_account env owner id) s).1.committed.bank_accounts
unfolding remove_bank_account get_bank_account_by_id
remove-IsOneDefault env owner id s h = elim (Result-cases (removable owner id s.committed)) [
  | inl (e, q) ↦ rw q h
  | inr (a, q) ↦
      let found = removable-eq-ok owner id s.committed q in
      let at = get-find bank_account_id _ s.committed.bank_accounts h.keyed found in
      rw q (
        soft_delete_account-IsOneDefault env a s.committed h at
          (ground (arith, find-sat _ s.committed.bank_accounts found)))
]

-- Requests that add or remove bank accounts, of any users.
pub data Steps (s : Session) : Session → Type 0 where
  begun : Steps s s
  adds :
      (env : Env) (owner : User) (account_name account_number bank_code bank_name : String)
      (s' : Session)
      → Steps s s'
      → Steps s
          (request
            (add_bank_account env owner account_name account_number bank_code bank_name)
            s').1
  removes :
      (env : Env) (owner : User) (id : ℕ) (s' : Session)
      → Steps s s'
      → Steps s (request (remove_bank_account env owner id) s').1

-- Through every sequence of requests that add or remove bank accounts, refused ones included: a user
-- with accounts that are not deleted has exactly one default among them, and a user without has none.
pub Steps-IsOneDefault :
    {s s' : Session}
    → IsOneDefault s.committed.bank_accounts
    → Steps s s'
    → IsOneDefault s'.committed.bank_accounts
Steps-IsOneDefault h begun = h
Steps-IsOneDefault h (adds env owner account_name account_number bank_code bank_name s' r) =
    add-IsOneDefault env owner account_name account_number bank_code bank_name s'
      (Steps-IsOneDefault h r)
Steps-IsOneDefault h (removes env owner id s' r) =
    remove-IsOneDefault env owner id s' (Steps-IsOneDefault h r)
