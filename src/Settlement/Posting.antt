-- ===== src/Settlement/Posting.antt =====
-- Posting a movement and reporting it settles a request.
use paycore_backend.Base.{
  ℕ, ◌≡◌, ◌⊎◌, inl, inr, true, false, Option, String, Bool-cases, Option-cases, refl, ap, subst,
  ◌∙◌,
}
use paycore_backend.Core.Errors.{integrity, broker_unavailable, Result, ok, err}
use paycore_backend.Models.Transaction.{Transaction, TransactionType}
use paycore_backend.Models.Rows.{Wallet}
use paycore_backend.Database.{Db}
use paycore_backend.Session.{Env, Session, Action, IsClean, ◌>>=◌}
use paycore_backend.Repositories.Transaction.{conflicts, get_by_key_if_given}
use paycore_backend.Services.Posting.{
  movement_record, Outcome, posted, replayed, replay_key, post_movement,
}
use paycore_backend.Books.Movement.{moved_books, write_movement_lem}
use paycore_backend.Settlement.{IsFunded, next_record, Settles, rejected, replayed as again, moved}

-- What the steps after a COMMIT may do: the answer stands or the broker fails, and the committed
-- books stay.
abbrev pub Reports : Transaction → Session → Result Transaction × Session → Type 0
Reports t s (r, s') =
    ((r ≡ ok t) ⊎ (r ≡ err broker_unavailable)) × (s'.committed.books ≡ s.committed.books)

-- A report of an outcome: a replayed transaction is returned as it is.
pub record IsReport (report : Outcome → Action Transaction) : Type 0 where
  pub on_replayed : (t : Transaction) (s : Session) → report (replayed t) s ≡ (ok t, s)
  pub on_posted : (t : Transaction) (s : Session) → IsClean s → Reports t s (report (posted t) s)

module _ (env : Env) (user_id : ℕ) (type : TransactionType) (amount : ℕ) (key : Option String)
    (s : Session) (clean : IsClean s) (source destination : Wallet)
    (funded : IsFunded user_id amount source destination s.committed.books)
    (report : Outcome → Action Transaction) (reports : IsReport report) where
  abbrev answer : Result Transaction × Session
  answer = (post_movement env user_id type source destination amount key >>= report) s

  abbrev t : Transaction
  t = next_record env user_id type amount key s source destination

  clash-Settles :
      conflicts t s.db.transactions ≡ true → Settles env user_id type amount key s answer.0 answer.1
  unfolding post_movement replay_key movement_record
  clash-Settles e = rw (write_movement_lem env user_id type source destination amount key s) (
      rw e (elim (Option-cases (get_by_key_if_given key s.committed)) [
        | inl unused ↦ rw unused (rejected integrity refl refl)
        | inr (t, used) ↦ rw used (rw reports.on_replayed (again t used refl refl))
      ]))

  posted-Settles :
      conflicts t s.db.transactions ≡ false
      → Settles env user_id type amount key s answer.0 answer.1
  unfolding post_movement movement_record
  posted-Settles e = rw (write_movement_lem env user_id type source destination amount key s) (
      rw e (
        let (result, books) = reports.on_posted _ _ refl in
        moved source destination funded
          (subst (λ (db : Db). conflicts t db.transactions ≡ false) clean e)
          (books ∙ ap (λ (db : Db). moved_books env s.drawn t source destination db.books) clean)
          result))

  -- From funded wallets: all of the movement, or an answer that leaves the books alone.
  pub post_movement-Settles : Settles env user_id type amount key s answer.0 answer.1
  post_movement-Settles = elim (Bool-cases (conflicts t s.db.transactions)) [
    | inl e ↦ clash-Settles e
    | inr e ↦ posted-Settles e
  ]
