-- ===== src/Lifecycle.antt =====
-- The life of a transaction through `update_status` (app/repositories/transaction.py) and its state
-- machine (app/models/transaction.py).
use paycore_backend.Base.{
  ℕ, suc, ◌+◌, ◌≤◌, ◌≡◌, inl, inr, Option, none, some, String, true, arith, refl, subst, Bool-cases,
}
use paycore_backend.Core.Errors.{ok, err, validation}
use paycore_backend.Models.Transaction.{
  Transaction, TransactionStatus, pending, processing, completed, failed, reversed,
  valid_transition,
}
use paycore_backend.Session.{Session}
use paycore_backend.Repositories.Transaction.{update_status, with_status, with_provider_reference}

-- How far a status is from PENDING.
unfoldable pub rank : TransactionStatus → ℕ
rank pending = 0
rank processing = 1
rank completed = 2
rank failed = 2
rank reversed = 3

-- `n` updates, each of which succeeded, made of one row another.
pub data Updates (t : Transaction) : ℕ → Transaction → Type 0 where
  untouched : Updates t 0 t
  updated :
      {n : ℕ} {t' t'' : Transaction} (new_status : TransactionStatus)
      (reason reference : Option String) (s : Session)
      → Updates t n t'
      → (update_status t' new_status reason reference s).0 ≡ ok t''
      → Updates t (suc n) t''

valid_transition-rank :
    (a b : TransactionStatus) → valid_transition a b ≡ true → rank b ≡ suc (rank a)
unfolding valid_transition rank
valid_transition-rank pending processing e = refl
valid_transition-rank processing completed e = refl
valid_transition-rank processing failed e = refl
valid_transition-rank completed reversed e = refl
valid_transition-rank a b e = absurd (cc)

status-with_provider_reference :
    (t : Transaction) (new_status : TransactionStatus) (reason reference : Option String) {n : ℕ}
    → rank new_status ≡ n
    → rank (with_provider_reference reference (with_status t new_status reason)).status ≡ n
unfolding with_status
status-with_provider_reference t new_status reason none e = e
status-with_provider_reference t new_status reason (some r) e = e

-- An update that succeeds moves one rank on.
update_status-rank :
    (t t' : Transaction) (new_status : TransactionStatus) (reason reference : Option String)
    (s : Session)
    → (update_status t new_status reason reference s).0 ≡ ok t'
    → rank t'.status ≡ suc (rank t.status)
unfolding update_status with_status
update_status-rank t t' new_status reason reference s e =
    let updated = with_provider_reference reference (with_status t new_status reason) in
    elim (Bool-cases (valid_transition t.status new_status)) [
      | inl valid ↦
          let answer : (update_status t new_status reason reference s).0 ≡ ok updated =
            rw valid refl in
          let same : updated ≡ t' = cc in
          subst (λ (x : Transaction). rank x.status ≡ suc (rank t.status)) same
            (status-with_provider_reference t new_status reason reference
              (valid_transition-rank t.status new_status valid))
      | inr invalid ↦
          let answer : (update_status t new_status reason reference s).0
              ≡ err (validation "INVALID_STATUS_TRANSITION") =
            rw invalid refl in
          absurd (cc)
    ]

rank_bound : (a : TransactionStatus) → rank a ≤ 3
unfolding rank
rank_bound a = ground arith

-- Each update of a status that succeeds takes the transaction one rank further, in the order
-- PENDING, PROCESSING, COMPLETED or FAILED, REVERSED. So no status comes back, and there are three
-- at most.
pub Updates-rank :
    (t t' : Transaction) (n : ℕ) → Updates t n t' → (rank t'.status ≡ n + rank t.status) × (n ≤ 3)
Updates-rank t t' _ untouched = (omega arith, omega arith)
Updates-rank t t' (suc n) (updated {t' = before} new_status reason reference s earlier e) =
    let (so_far, few) = Updates-rank t before n earlier in
    let step = update_status-rank before t' new_status reason reference s e in
    let bound = rank_bound t'.status in (omega arith, omega arith)
