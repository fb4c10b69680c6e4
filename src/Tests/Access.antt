-- ===== src/Tests/Access.antt =====
-- The theorems on tokens, profiles, roles and API keys at concrete inputs.
use Prim.Native.String.{◌++◌}
use paycore_backend.Base.{String, eq_iff, ◌≡◌, none, some, refl, arith}
use paycore_backend.Base.Table.{get, find, put}
use paycore_backend.Core.Errors.{ok, err, forbidden, unauthorized}
use paycore_backend.Core.Security.{
  generate_api_key, first_chars, create_access_token, create_refresh_token, hash_refresh_token,
  verify_password,
}
use paycore_backend.Core.Deps.{get_current_user}
use paycore_backend.Session.{request}
use paycore_backend.Repositories.People.{get_user_by_id, get_user_by_email}
use paycore_backend.Repositories.Auth.{get_by_hash, insert_token, create_token, revoke}
use paycore_backend.Services.Audit.{log}
use paycore_backend.Services.Auth.{
  refresh, login, check_refresh, check_credentials, open_session, issue_token_pair,
  store_refresh_token, TokenResponse,
}
use paycore_backend.Services.Merchant.{get_merchant_profile, rotate_api_key, authenticate}
use paycore_backend.Services.User.{update_profile}
use paycore_backend.Access.Requests.{none_yet}
use paycore_backend.Access.Once.{refresh-once}
use paycore_backend.Api.Admin.{
  approve_submission, reject_submission, list_kyc_submissions, list_audit_logs,
  list_webhook_deliveries, list_all_transactions, get_any_transaction, list_all_users, get_any_user,
  get_kyc_submission, run_reconciliation,
}
use paycore_backend.Repositories.Listing.{AdminFilter}
use paycore_backend.Repositories.AuditLog.{AuditFilter}
use paycore_backend.Services.Auth.{register}
use paycore_backend.Access.Registration.{Registers, register-Registers}
use paycore_backend.Access.Roles.{login-no_admin}
use paycore_backend.Api.Customer.{
  get_my_profile, get_my_kyc, get_my_merchant, list_my_transactions, get_my_transaction,
  get_my_wallet, get_my_transactions, list_my_bank_accounts, get_withdrawal_status,
}
use paycore_backend.Access.Privacy.{
  Shows, MyProfile, MyTransaction, MyTransactions, MyStatement, MyAccounts, MySubmission,
  MyMerchant, MyWallet, reads-mine,
}
use paycore_backend.Access.Profile.{update_profile-lost}
use paycore_backend.Access.Login.{login-get_current_user}
use paycore_backend.Access.Keys.{rotate_api_key-authenticate}
use paycore_backend.Tests.Bank.{env, alice, bank}
use paycore_backend.Repositories.Merchant.{get_merchant_by_user_id, update_api_key, put_merchant}
use paycore_backend.Models.Rows.{Merchant}
use paycore_backend.Tests.Desk.{live_shop, desk, desk_db, token, jwt_env}

abbrev pair : TokenResponse
pair = record { access_token = "jwt"; refresh_token = "t"; expires_in = 1800 }

rotates : (request (refresh env "old") desk).0 ≡ ok pair
unfolding refresh check_refresh get_by_hash find get_user_by_id revoke put open_session
    issue_token_pair create_refresh_token hash_refresh_token create_access_token store_refresh_token
    create_token insert_token get
rotates = refl

refresh-once_example : request (refresh env "old") (request (refresh env "old") desk).1 ≡ (
  err unauthorized,
  record (request (refresh env "old") desk).1 {
    db = (request (refresh env "old") desk).1.committed;
  },
)
unfolding get
refresh-once_example =
    refresh-once env env "old" desk (request (refresh env "old") desk).1 (refl, tt) rotates none_yet
      refl

known : get_by_hash (hash_refresh_token env "old") desk.committed ≡ some token
unfolding get_by_hash find hash_refresh_token
known = refl

update_profile-lost_example :
    (request (update_profile 1 (some "Alice A.") none) bank).1 ≡ record bank { db = bank.committed }
update_profile-lost_example = update_profile-lost 1 (some "Alice A.") none bank

logs_in : (login jwt_env "alice" "" desk).0 ≡ ok pair
unfolding login check_credentials get_user_by_email find verify_password open_session
    issue_token_pair create_refresh_token create_access_token store_refresh_token create_token
    insert_token log
logs_in = refl

is_alice : check_credentials jwt_env "alice" "" desk.db ≡ ok alice
unfolding check_credentials get_user_by_email find verify_password
is_alice = refl

still_there : get_user_by_id 1 desk_db ≡ some alice
unfolding get_user_by_id find
still_there = refl

login-get_current_user_example : get_current_user jwt_env "jwt" desk_db ≡ ok alice
login-get_current_user_example =
    login-get_current_user jwt_env jwt_env "alice" "" desk desk_db (λ now later early. ground arith)
      refl (omega arith) (omega arith) logs_in is_alice still_there

abbrev new_key : String
new_key = "pk_live_" ++ env.hex (env.uuid 0)

abbrev new_shop : Merchant
new_shop = record live_shop { api_key_hash = new_key; api_key_prefix = first_chars 8 new_key }

key_rotated : (request (rotate_api_key env 2) desk).0 ≡ ok (new_shop, new_key)
unfolding rotate_api_key get_merchant_profile get_merchant_by_user_id find generate_api_key
    update_api_key put_merchant log
key_rotated = refl

rotate_api_key-authenticate_example :
    authenticate env new_key (request (rotate_api_key env 2) desk).1.committed ≡ ok new_shop
unfolding get
rotate_api_key-authenticate_example =
    rotate_api_key-authenticate env env 2 desk (λ salt plain. (eq_iff plain plain).1 refl) refl
      (refl, tt) key_rotated refl (refl, tt)

abbrev everything : AdminFilter
everything = record {
  status = none;
  type = none;
  risk_flagged = none;
  from_date = none;
  to_date = none;
}

abbrev every_entry : AuditFilter
every_entry = record { actor_id = none; action = none; from_date = none; to_date = none }

register-Registers_example :
    Registers env "dora" desk.committed (request (register env "dora" "pw" "Dora" none) desk)
register-Registers_example = register-Registers env "dora" "pw" "Dora" none desk

login-no_admin_example :
    (approve_submission jwt_env "jwt" 51 desk ≡ (err forbidden, desk))
    × (reject_submission jwt_env "jwt" 51 "W1" desk ≡ (err forbidden, desk))
    × (list_kyc_submissions jwt_env "jwt" none 20 0 desk ≡ (err forbidden, desk))
    × (list_audit_logs jwt_env "jwt" every_entry 20 0 desk ≡ (err forbidden, desk))
    × (list_webhook_deliveries jwt_env "jwt" 20 0 desk ≡ (err forbidden, desk))
    × (list_all_transactions jwt_env "jwt" everything 20 0 desk ≡ (err forbidden, desk))
    × (get_any_transaction jwt_env "jwt" "W1" desk ≡ (err forbidden, desk))
    × (list_all_users jwt_env "jwt" none none 20 0 desk ≡ (err forbidden, desk))
    × (get_any_user jwt_env "jwt" 51 desk ≡ (err forbidden, desk))
    × (get_kyc_submission jwt_env "jwt" 51 desk ≡ (err forbidden, desk))
    × (run_reconciliation jwt_env "jwt" desk ≡ (err forbidden, desk))
login-no_admin_example =
    login-no_admin jwt_env jwt_env "alice" "" desk desk 51 20 0 "W1" none none none everything
      every_entry (λ now later early. ground arith) refl (omega arith) (omega arith) logs_in
      is_alice still_there refl

reads-mine_example :
    Shows jwt_env "jwt" desk MyProfile (get_my_profile jwt_env "jwt" desk)
    × Shows jwt_env "jwt" desk MyTransaction (get_my_transaction jwt_env "jwt" "W1" desk)
    × Shows jwt_env "jwt" desk MyTransaction (get_withdrawal_status jwt_env "jwt" "W1" desk)
    × Shows jwt_env "jwt" desk MyTransactions
        (list_my_transactions jwt_env "jwt" 20 0 none none desk)
    × Shows jwt_env "jwt" desk MyStatement (get_my_transactions jwt_env "jwt" 20 0 desk)
    × Shows jwt_env "jwt" desk MyAccounts (list_my_bank_accounts jwt_env "jwt" desk)
    × Shows jwt_env "jwt" desk MySubmission (get_my_kyc jwt_env "jwt" desk)
    × Shows jwt_env "jwt" desk MyMerchant (get_my_merchant jwt_env "jwt" desk)
    × Shows jwt_env "jwt" desk MyWallet (get_my_wallet jwt_env "jwt" desk)
reads-mine_example = reads-mine jwt_env "jwt" "W1" 20 0 none none desk
