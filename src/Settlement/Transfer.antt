-- ===== src/Settlement/Transfer.antt =====
-- `TransferService.initiate_transfer` settles every request.
use paycore_backend.Base.{
  ℕ, ◌≡◌, ◌≢◌, inl, inr, Option, some, String, arith, refl, subst, Option-cases,
}
use paycore_backend.Base.Table.{IsKeyed}
use paycore_backend.Core.Errors.{Result, ok, Result-cases}
use paycore_backend.Models.Transaction.{Transaction, transfer}
use paycore_backend.Models.Rows.{User, Wallet}
use paycore_backend.Database.{Db, >>=-eq-ok}
use paycore_backend.Session.{Env, Session, IsClean}
use paycore_backend.Repositories.Wallet.{wallet_id, get_by_user_id}
use paycore_backend.Repositories.Transaction.{get_by_key_if_given}
use paycore_backend.Services.Fraud.{maybe_flag_rapid_transfers}
use paycore_backend.Services.Audit
use paycore_backend.Services.Locking.{Plan, existing, movement, lock_funded}
use paycore_backend.Services.Transfer.{
  Recipient, find_recipient, check_and_lock, resolve_wallets, transfer_plan, report_transfer,
  carry_out, initiate_transfer,
}
use paycore_backend.Settlement.{IsFunded, Settles, rejected, replayed}
use paycore_backend.Settlement.Plan.{lock_funded-IsFunded, wallets_apart, get-get_by_user_id}
use paycore_backend.Settlement.Posting.{IsReport, post_movement-Settles}

report_transfer-IsReport :
    (env : Env) (sender : User) (wallet : ℕ) → IsReport (report_transfer env sender wallet)
unfolding report_transfer maybe_flag_rapid_transfers Audit.log
report_transfer-IsReport env sender wallet = record {
  on_replayed = λ t s. refl;
  on_posted = λ t s clean. ground arith;
}

resolve_wallets-eq-ok :
    (env : Env) (sender : User) (to : Recipient) (db : Db) {a b : Wallet}
    → resolve_wallets env sender to db ≡ ok (a, b)
    → (get_by_user_id sender.id db ≡ some a)
      × ((receiver : ℕ) × (sender.id ≢ receiver) × (get_by_user_id receiver db ≡ some b))
unfolding resolve_wallets
resolve_wallets-eq-ok env sender to db {a} {b} e = elim (Option-cases (find_recipient env to db)) [
  | inl nobody ↦ absurd (ground arith)
  | inr (r, found) ↦ (ground arith, (r.id, ground arith, ground arith))
]

check_and_lock-movement :
    (env : Env) (sender : User) (a b f g : Wallet) (amount : ℕ) (used : Option Transaction)
    (db : Db)
    → check_and_lock env sender a b amount used db ≡ ok (movement f g)
    → lock_funded a.id b.id amount db ≡ ok (movement f g)
unfolding check_and_lock
check_and_lock-movement env sender a b f g amount used db e = ground arith

check_and_lock-existing :
    (env : Env) (sender : User) (a b : Wallet) (t : Transaction) (amount : ℕ)
    (used : Option Transaction) (db : Db)
    → check_and_lock env sender a b amount used db ≡ ok (existing t)
    → used ≡ some t
unfolding check_and_lock lock_funded
check_and_lock-existing env sender a b t amount used db e = ground arith

module _ (env : Env) (sender : User) (to : Recipient) (amount : ℕ) (key : Option String)
    (db : Db) where
  pub transfer_plan-eq-ok :
      {p : Plan}
      → transfer_plan env sender to amount key db ≡ ok p
      → (w : Wallet × Wallet) × (resolve_wallets env sender to db ≡ ok w)
        × (check_and_lock env sender w.0 w.1 amount (get_by_key_if_given key db) db ≡ ok p)
  unfolding transfer_plan
  transfer_plan-eq-ok e =
      >>=-eq-ok (resolve_wallets env sender to)
        (λ w d. check_and_lock env sender w.0 w.1 amount (get_by_key_if_given key d) d) db e

  plan-existing :
      (t : Transaction)
      → transfer_plan env sender to amount key db ≡ ok (existing t)
      → get_by_key_if_given key db ≡ some t
  plan-existing t e =
      let (w, resolved, rest) = transfer_plan-eq-ok e in
      check_and_lock-existing env sender w.0 w.1 t amount (get_by_key_if_given key db) db rest

  pub plan-movement :
      (f g : Wallet)
      → IsKeyed wallet_id db.wallets
      → transfer_plan env sender to amount key db ≡ ok (movement f g)
      → IsFunded sender.id amount f g db.books
  plan-movement f g keyed e =
      let (w, resolved, rest) = transfer_plan-eq-ok e in
      let (a, b) = w in
      let (mine, (receiver, other, theirs)) = resolve_wallets-eq-ok env sender to db resolved in
      let (there, user) = get-get_by_user_id db keyed sender.id mine in
      subst (λ u. IsFunded u amount f g db.books) user
        (lock_funded-IsFunded db keyed a b amount there
          (wallets_apart db keyed sender.id receiver a b mine theirs other)
          (check_and_lock-movement env sender a b f g amount (get_by_key_if_given key db) db rest))

module _ (env : Env) (sender : User) (to : Recipient) (amount : ℕ) (key : Option String)
    (s : Session) where
  carry_out-Settles :
      (p : Plan)
      → IsClean s
      → IsKeyed wallet_id s.committed.wallets
      → transfer_plan env sender to amount key s.committed ≡ ok p
      → let (r, s') = carry_out env sender amount key p s in
        Settles env sender.id transfer amount key s r s'
  unfolding carry_out
  carry_out-Settles (existing t) clean keyed planned =
      replayed t (plan-existing env sender to amount key s.committed t planned) refl refl
  carry_out-Settles (movement f g) clean keyed planned =
      post_movement-Settles env sender.id transfer amount key s clean f g
        (plan-movement env sender to amount key s.committed f g keyed planned)
        (report_transfer env sender f.id) (report_transfer-IsReport env sender f.id)

  abbrev outcome : Result Transaction × Session
  outcome = initiate_transfer env sender to amount key s

  -- Every transfer request on a session without pending writes, whose wallets have distinct ids,
  -- settles: it raises and leaves the committed books alone, answers with the earlier transaction
  -- of the same key, or commits the whole movement from a wallet of the sender that covers it to a
  -- different wallet.
  pub initiate_transfer-Settles :
      IsClean s
      → IsKeyed wallet_id s.committed.wallets
      → Settles env sender.id transfer amount key s outcome.0 outcome.1
  unfolding initiate_transfer
  initiate_transfer-Settles clean keyed =
      elim (Result-cases (transfer_plan env sender to amount key s.db)) [
        | inl (e, failed) ↦ rw failed (rejected e refl refl)
        | inr (p, planned) ↦ rw planned (
            carry_out-Settles p clean keyed
              (subst (λ db. transfer_plan env sender to amount key db ≡ ok p) clean planned))
      ]
