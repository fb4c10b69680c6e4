-- ===== src/Repositories/Wallet.antt =====
-- app/repositories/wallet.py. `balance >= 0`, the CHECK constraint of the table, is built into ℕ.
use paycore_backend.Base.{
  ℕ, String, Bool, not, ◌&&◌, ◌||◌, Option, none, List, ◌∷◌, ◌==◌, true, is_none, if◌then◌else◌,
}
use paycore_backend.Base.Table.{find, put}
use paycore_backend.Core.Errors.{integrity}
use paycore_backend.Models.Rows.{Wallet}
use paycore_backend.Database.{Books, Db}
use paycore_backend.Session.{Env, Action, pure, raise, modify_books, uuid4, ◌>>=◌, ◌>>◌}

abbrev pub wallet_id : Wallet → ℕ
wallet_id w = w.id

abbrev pub is_live_id : ℕ → Wallet → Bool
is_live_id i w = w.id == i && is_none w.deleted_at

abbrev pub is_live_of_user : ℕ → Wallet → Bool
is_live_of_user u w = w.user_id == u && is_none w.deleted_at

unfoldable pub get_by_id : ℕ → Db → Option Wallet
get_by_id i db = find (is_live_id i) db.wallets

unfoldable pub get_by_user_id : ℕ → Db → Option Wallet
get_by_user_id u db = find (is_live_of_user u) db.wallets

-- SELECT … FOR UPDATE: the same row as `get_by_id`, locked until the transaction ends.
unfoldable pub lock_for_update : ℕ → Db → Option Wallet
lock_for_update i db = find (is_live_id i) db.wallets

unfoldable pub put_wallet : Wallet → Books → Books
put_wallet w b = record b { wallets = put wallet_id w b.wallets }

-- The UNIQUE constraints of the table: primary key and `user_id`.
unfoldable pub conflicts : Wallet → List Wallet → Bool
conflicts new rows = not (is_none (find (λ w. w.id == new.id || w.user_id == new.user_id) rows))

unfoldable pub insert : Wallet → Action Wallet
insert new s =
    if conflicts new s.db.wallets
    then raise integrity s
    else (do modify_books (λ b. record b { wallets = new ∷ b.wallets }); pure new) s

unfoldable pub create : Env → ℕ → String → Action Wallet
unfolding insert
create env user_id currency = do
  id ← uuid4 env
  let wallet : Wallet = record {
    id = id;
    user_id = user_id;
    currency = currency;
    balance = 0;
    is_active = true;
    deleted_at = none;
  }
  insert wallet

unfoldable pub update_balance : Wallet → ℕ → Action Wallet
unfolding put_wallet
update_balance wallet new_balance = do
  let updated : Wallet = record wallet { balance = new_balance }
  modify_books (put_wallet updated)
  pure updated

unfoldable pub set_active : Wallet → Bool → Action Wallet
unfolding put_wallet
set_active wallet active = do
  let updated : Wallet = record wallet { is_active = active }
  modify_books (put_wallet updated)
  pure updated

unfoldable pub soft_delete : Env → Wallet → Action Wallet
unfolding put_wallet
soft_delete env wallet = do
  let updated : Wallet = record wallet { deleted_at = Option.some env.now }
  modify_books (put_wallet updated)
  pure updated
