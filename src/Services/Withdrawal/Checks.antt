-- ===== src/Services/Withdrawal/Checks.antt =====
-- The reads and guards of `WithdrawalService.initiate_withdrawal`, steps 1 to 5.
use paycore_backend.Base.{ℕ, Bool, not, ◌&&◌, ◌||◌, Option, ◌==◌, ltb, is_none}
use paycore_backend.Base.Table.{select}
use paycore_backend.Core.Errors.{
  not_found, bank_account, forbidden, validation, insufficient_balance,
}
use paycore_backend.Models.Transaction.{
  Transaction, withdrawal, pending, processing, is_type, is_status,
}
use paycore_backend.Models.Rows.{User, Wallet, BankAccount}
use paycore_backend.Database.{
  Query, answer, one_or_none, or_raise, or_raise_unless, raise_if, ask, ◌>>=◌, ◌>>◌,
}
use paycore_backend.Session.{Env}
use paycore_backend.Repositories.Wallet.{get_by_user_id, lock_for_update}
use paycore_backend.Repositories.People.{get_bank_account_by_id}
use paycore_backend.Services.Fraud.{check_withdrawal}

abbrev pub is_active_withdrawal_of : ℕ → Transaction → Bool
is_active_withdrawal_of user_id t =
    t.initiated_by_user_id == user_id
    && is_type t.type withdrawal
    && (is_status t.status pending || is_status t.status processing)

-- `scalar_one_or_none()` raises if there are two.
unfoldable pub get_active_withdrawal : ℕ → Query (Option Transaction)
get_active_withdrawal user_id db =
    one_or_none (select (is_active_withdrawal_of user_id) db.transactions) db

-- The account exists, is not deleted, and is the user's.
unfoldable pub require_owned : ℕ → Option BankAccount → Query BankAccount
require_owned user_id found =
    or_raise_unless (λ a. a.user_id == user_id) found (not_found bank_account)

unfoldable pub withdrawal_plan : Env → User → ℕ → ℕ → Query Wallet
withdrawal_plan env owner account amount = do
  found ← ask (get_by_user_id owner.id)
  wallet ← or_raise_unless (λ w. w.is_active) found forbidden
  check_withdrawal env owner amount
  active ← get_active_withdrawal owner.id
  raise_if (not (is_none active)) (validation "WITHDRAWAL_ALREADY_PENDING")
  account_found ← ask (get_bank_account_by_id account)
  require_owned owner.id account_found
  locked ← ask (lock_for_update wallet.id)
  locked_wallet ← or_raise locked forbidden
  raise_if (ltb locked_wallet.balance amount) insufficient_balance
  answer locked_wallet
