-- ===== src/Services/Wallet.antt =====
-- app/services/wallet.py: opening a wallet and the guards on it.
use paycore_backend.Base.{ℕ, String, not, is_none}
use paycore_backend.Core.Errors.{conflict, not_found, wallet, forbidden}
use paycore_backend.Models.Rows
use paycore_backend.Database.{Query, answer, or_raise, raise_if, ask, ◌>>=◌, ◌>>◌}
use paycore_backend.Session.{Env, Action, query}
use paycore_backend.Session as Session
use paycore_backend.Repositories.Wallet.{get_by_user_id, create}

-- The guard of `create_wallet`.
unfoldable pub require_no_wallet : ℕ → Query (Unit {0})
require_no_wallet user_id = do
  existing ← ask (get_by_user_id user_id)
  raise_if (not (is_none existing)) (conflict "WALLET_ALREADY_EXISTS")

unfoldable pub create_wallet : Env → ℕ → String → Action Rows.Wallet
create_wallet env user_id currency s =
    Session.resume (query (require_no_wallet user_id) s) (λ _. create env user_id currency)

unfoldable pub get_wallet : ℕ → Query Rows.Wallet
get_wallet user_id = do found ← ask (get_by_user_id user_id); or_raise found (not_found wallet)

unfoldable pub get_balance : ℕ → Query ℕ
get_balance user_id = do mine ← get_wallet user_id; answer mine.balance

unfoldable pub assert_wallet_active : ℕ → Query Rows.Wallet
assert_wallet_active user_id = do
  mine ← get_wallet user_id
  raise_if (not mine.is_active) forbidden
  answer mine
