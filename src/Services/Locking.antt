-- ===== src/Services/Locking.antt =====
-- What transfers and merchant payments share before they write: the outcome of their checks, and
-- the locking of the two wallets in the order of their ids.
use paycore_backend.Base.{ℕ, leb, ltb, ◌==◌, if◌then◌else◌}
use paycore_backend.Core.Errors.{not_found, wallet, insufficient_balance}
use paycore_backend.Models.Transaction.{Transaction}
use paycore_backend.Models.Rows.{Wallet}
use paycore_backend.Database.{Query, answer, or_raise, raise_if, ask, ◌>>=◌, ◌>>◌}
use paycore_backend.Repositories.Wallet.{lock_for_update}

-- A request repeats an earlier one, or moves money between two locked wallets.
pub data Plan : Type 0 where
  existing : Transaction → Plan
  movement : Wallet → Wallet → Plan

-- `sorted([a, b], key=str)`: the canonical texts of two UUIDs are ordered like their numbers.
unfoldable pub lock_order : ℕ → ℕ → ℕ × ℕ
lock_order a b = if leb a b then (a, b) else (b, a)

unfoldable pub lock_pair : ℕ → ℕ → Query (Wallet × Wallet)
unfolding lock_order
lock_pair source_id destination_id = do
  let (first_id, second_id) = lock_order source_id destination_id
  first ← ask (lock_for_update first_id)
  second ← ask (lock_for_update second_id)
  locked_first ← or_raise first (not_found wallet)
  locked_second ← or_raise second (not_found wallet)
  answer (
      if first_id == source_id
      then (locked_first, locked_second)
      else (locked_second, locked_first))

-- The locks, and the balance check against the locked row.
unfoldable pub lock_funded : ℕ → ℕ → ℕ → Query Plan
lock_funded source_id destination_id amount = do
  (locked_source, locked_destination) ← lock_pair source_id destination_id
  raise_if (ltb locked_source.balance amount) insufficient_balance
  answer (movement locked_source locked_destination)
