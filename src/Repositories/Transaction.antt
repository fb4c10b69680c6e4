-- ===== src/Repositories/Transaction.antt =====
-- app/repositories/transaction.py
use paycore_backend.Base.{
  ℕ, String, ◌≡◌, refl, Bool, false, not, ◌||◌, Option, none, some, List, ◌∷◌, ◌==◌, str_eq,
  is_text, is_none, points_to, if◌then◌else◌,
}
use paycore_backend.Base.Table.{find, select, put}
use paycore_backend.Core.Errors.{ok, err, integrity, validation}
use paycore_backend.Models.Transaction.{Transaction, TransactionStatus, valid_transition}
use paycore_backend.Database.{Books, Db, Query, one_or_none}
use paycore_backend.Session.{Session, Action, pure, raise, modify_books, ◌>>◌}

abbrev pub transaction_id : Transaction → ℕ
transaction_id t = t.id

abbrev same_key : Option String → Option String → Bool
same_key none _ = false
same_key (some k) o = is_text o k

-- The UNIQUE constraints of the table: primary key, `reference`, `idempotency_key`.
unfoldable pub clashes : Transaction → Transaction → Bool
clashes new t =
    t.id == new.id
    || str_eq t.reference new.reference
    || same_key new.idempotency_key t.idempotency_key

unfoldable pub conflicts : Transaction → List Transaction → Bool
unfolding clashes
conflicts new rows = not (is_none (find (clashes new) rows))

unfoldable pub insert_transaction : Transaction → Books → Books
insert_transaction new b = record b { transactions = new ∷ b.transactions }

unfoldable pub create : Transaction → Action Transaction
create new s =
    if conflicts new s.db.transactions
    then (raise integrity) s
    else (do modify_books (insert_transaction new); pure new) s

pub create_lem :
    (new : Transaction) (s : Session)
    → create new s ≡ (
        if conflicts new s.db.transactions
        then (err integrity, s)
        else (ok new, record s { db = record s.db { books = insert_transaction new s.db.books } }))
unfolding create
create_lem new s = refl

unfoldable pub get_by_id : ℕ → Db → Option Transaction
get_by_id i db = find (λ t. t.id == i) db.transactions

unfoldable pub get_by_reference : String → Db → Option Transaction
get_by_reference r db = find (λ t. str_eq t.reference r) db.transactions

-- `provider_reference` is indexed but not unique.
unfoldable pub get_by_provider_reference : String → Query (Option Transaction)
get_by_provider_reference r db =
    one_or_none (select (λ t. is_text t.provider_reference r) db.transactions) db

unfoldable pub get_by_idempotency_key : String → Db → Option Transaction
get_by_idempotency_key k db = find (λ t. is_text t.idempotency_key k) db.transactions

-- `if idempotency_key: existing = await get_by_idempotency_key(idempotency_key)`
unfoldable pub get_by_key_if_given : Option String → Db → Option Transaction
unfolding get_by_idempotency_key
get_by_key_if_given none db = none
get_by_key_if_given (some k) db = if str_eq k "" then none else get_by_idempotency_key k db

abbrev pub touches_wallet : ℕ → Transaction → Bool
touches_wallet w t = points_to t.source_wallet_id w || points_to t.destination_wallet_id w

-- `get_by_wallet`, before `limit` and `offset`: newest first, as the table is kept.
unfoldable pub get_by_wallet : ℕ → Db → List Transaction
get_by_wallet w db = select (touches_wallet w) db.transactions

unfoldable pub put_transaction : Transaction → Books → Books
put_transaction t b = record b { transactions = put transaction_id t b.transactions }

abbrev or_keep : Option String → Option String → Option String
or_keep none old = old
or_keep (some new) old = some new

-- The status and the reason that `update_status` writes.
unfoldable pub with_status : Transaction → TransactionStatus → Option String → Transaction
with_status t new_status failure_reason = record t {
  status = new_status;
  failure_reason = or_keep failure_reason t.failure_reason;
}

abbrev pub with_provider_reference : Option String → Transaction → Transaction
with_provider_reference none t = t
with_provider_reference (some provider_reference) t = record t {
  provider_reference = some provider_reference;
}

unfoldable pub update_status :
    Transaction → TransactionStatus → Option String → Option String → Action Transaction
unfolding put_transaction
update_status t new_status failure_reason provider_reference s =
    let updated =
      with_provider_reference provider_reference (with_status t new_status failure_reason) in
    if valid_transition t.status new_status
    then (do modify_books (put_transaction updated); pure updated) s
    else raise (validation "INVALID_STATUS_TRANSITION") s

pub update_status_lem :
    (t : Transaction) (new_status : TransactionStatus) (failure_reason : Option String)
    (s : Session)
    → update_status t new_status failure_reason none s ≡ (
        if valid_transition t.status new_status
        then (
          ok (with_status t new_status failure_reason),
          record s {
            db = record s.db {
              books = put_transaction (with_status t new_status failure_reason) s.db.books;
            };
          },
        )
        else (err (validation "INVALID_STATUS_TRANSITION"), s))
unfolding update_status
update_status_lem t new_status failure_reason s = refl
