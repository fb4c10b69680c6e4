-- ===== src/Repositories/Fraud.antt =====
-- app/repositories/fraud.py: the counts and sums that the fraud rules read.
use paycore_backend.Base.{
  ℕ, suc, Bool, false, ◌&&◌, ◌||◌, none, some, List, [], ◌∷◌, ◌==◌, leb, points_to, if◌then◌else◌,
}
use paycore_backend.Base.Table.{select, length, sum_by}
use paycore_backend.Models.Transaction.{
  Transaction, TransactionType, transfer, completed, is_status, is_type,
}
use paycore_backend.Database.{Db}

abbrev pub amount_of : Transaction → ℕ
amount_of t = t.amount

abbrev pub is_outgoing_since : ℕ → TransactionType → ℕ → Transaction → Bool
is_outgoing_since user_id type day_start t =
    t.initiated_by_user_id == user_id
    && is_type t.type type
    && is_status t.status completed
    && leb day_start t.created_at

unfoldable pub get_daily_outgoing_sum : ℕ → TransactionType → ℕ → Db → ℕ
get_daily_outgoing_sum user_id type day_start db =
    sum_by amount_of (select (is_outgoing_since user_id type day_start) db.transactions)

abbrev pub is_same_transfer_since : ℕ → ℕ → ℕ → ℕ → Transaction → Bool
is_same_transfer_since source destination amount since t =
    points_to t.source_wallet_id source
    && points_to t.destination_wallet_id destination
    && t.amount == amount
    && is_type t.type transfer
    && leb since t.created_at

unfoldable pub count_recent_transfers : ℕ → ℕ → ℕ → ℕ → Db → ℕ
count_recent_transfers source destination amount since db =
    length (select (is_same_transfer_since source destination amount since) db.transactions)

abbrev is_transfer_since : ℕ → ℕ → Transaction → Bool
is_transfer_since source since t =
    points_to t.source_wallet_id source && is_type t.type transfer && leb since t.created_at

any_to : ℕ → List Transaction → Bool
any_to w [] = false
any_to w (t ∷ l) = points_to t.destination_wallet_id w || any_to w l

-- COUNT(DISTINCT destination_wallet_id), which ignores NULL.
unfoldable pub count_destinations : List Transaction → ℕ
unfolding any_to
count_destinations [] = 0
count_destinations (t ∷ l) =
    let rest = count_destinations l in
    elim t.destination_wallet_id [ none ↦ rest | some w ↦ if any_to w l then rest else suc rest ]

unfoldable pub count_distinct_recipients_recently : ℕ → ℕ → Db → ℕ
unfolding count_destinations
count_distinct_recipients_recently source since db =
    count_destinations (select (is_transfer_since source since) db.transactions)
