-- ===== src/Repositories/Listing.antt =====
-- app/repositories/transaction.py: the paginated queries. The table is kept newest first, which is
-- ORDER BY created_at DESC.
use paycore_backend.Base.{ℕ, Bool, true, false, not, ◌&&◌, Option, none, some, List, ◌==◌, leb}
use paycore_backend.Base.Table.{select, take, drop, length}
use paycore_backend.Models.Transaction.{
  Transaction, TransactionType, TransactionStatus, is_type, is_status,
}
use paycore_backend.Database.{Db}
use paycore_backend.Repositories.Transaction.{touches_wallet}

module _ {ℓ} {A : Type ℓ} where
  -- LIMIT and OFFSET, with the number of all rows that match.
  unfoldable pub page : ℕ → ℕ → List A → List A × ℕ
  page limit offset rows = (take limit (drop offset rows), length rows)

unfoldable pub list_by_wallet : ℕ → ℕ → ℕ → Db → List Transaction × ℕ
list_by_wallet wallet_id limit offset db =
    page limit offset (select (touches_wallet wallet_id) db.transactions)

abbrev pub type_matches : Option TransactionType → Transaction → Bool
type_matches none t = true
type_matches (some type) t = is_type t.type type

abbrev pub status_matches : Option TransactionStatus → Transaction → Bool
status_matches none t = true
status_matches (some status) t = is_status t.status status

abbrev pub is_of_user : ℕ → Option TransactionType → Option TransactionStatus → Transaction → Bool
is_of_user user_id type status t =
    t.initiated_by_user_id == user_id && (type_matches type t && status_matches status t)

unfoldable pub get_by_user :
    ℕ → ℕ → ℕ → Option TransactionType → Option TransactionStatus → Db → List Transaction × ℕ
get_by_user user_id limit offset type status db =
    page limit offset (select (is_of_user user_id type status) db.transactions)

abbrev pub flag_matches : Option Bool → Transaction → Bool
flag_matches none t = true
flag_matches (some true) t = t.risk_flagged
flag_matches (some false) t = not t.risk_flagged

abbrev pub from_matches : Option ℕ → Transaction → Bool
from_matches none t = true
from_matches (some from_date) t = leb from_date t.created_at

abbrev pub to_matches : Option ℕ → Transaction → Bool
to_matches none t = true
to_matches (some to_date) t = leb t.created_at to_date

-- The filters of the two administrator's queries.
pub record AdminFilter : Type 0 where
  pub status : Option TransactionStatus
  pub type : Option TransactionType
  pub risk_flagged : Option Bool
  pub from_date : Option ℕ
  pub to_date : Option ℕ

abbrev pub admin_matches : AdminFilter → Transaction → Bool
admin_matches f t =
    status_matches f.status t
    && (type_matches f.type t
        && (flag_matches f.risk_flagged t
            && (from_matches f.from_date t && to_matches f.to_date t)))

unfoldable pub list_admin : AdminFilter → ℕ → ℕ → Db → List Transaction
list_admin f limit offset db = take limit (drop offset (select (admin_matches f) db.transactions))

unfoldable pub count_admin : AdminFilter → Db → ℕ
count_admin f db = length (select (admin_matches f) db.transactions)
