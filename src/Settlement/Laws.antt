-- ===== src/Settlement/Laws.antt =====
-- What every settled request keeps: the books stay sound, and no money appears or vanishes.
use paycore_backend.Base.{
  ℕ, ◌≡◌, false, Option, none, String, List, [], ◌∷◌, arith, subst, sym, ap, ◌∙◌, refl,
}
use paycore_backend.Base.Table.{get, find}
use paycore_backend.Core.Errors.{Result}
use paycore_backend.Models.Transaction.{Transaction, TransactionType}
use paycore_backend.Session.{Env, Session}
use paycore_backend.Repositories.Transaction.{transaction_id, clashes, conflicts}
use paycore_backend.Services.Posting.{movement_record}
use paycore_backend.Books.{IsSound}
use paycore_backend.Books.Movement.{moved-IsSound}
use paycore_backend.Books.Total.{total_balance, total_balance-moved}
use paycore_backend.Settlement.{Settles, rejected, replayed, moved, next_record}

-- A record that clashes with none has a new primary key.
pub get-conflicts :
    (t : Transaction) (rows : List Transaction)
    → conflicts t rows ≡ false
    → get transaction_id t.id rows ≡ none
unfolding conflicts clashes find get
get-conflicts t [] e = refl
get-conflicts t (x ∷ rows) e = ground (arith, get-conflicts t rows)

module _ (env : Env) (user_id : ℕ) (type : TransactionType) (amount : ℕ) (key : Option String)
    (s : Session) {r : Result Transaction} {s' : Session} where
  pub Settles-IsSound :
      Settles env user_id type amount key s r s'
      → IsSound s.committed.books
      → IsSound s'.committed.books
  unfolding movement_record
  Settles-IsSound (rejected e result same) h = subst IsSound (sym same) h
  Settles-IsSound (replayed t used result same) h = subst IsSound (sym same) h
  Settles-IsSound (moved source destination funded fresh books result) h =
      subst IsSound (sym books) (
        moved-IsSound env s.drawn (next_record env user_id type amount key s source destination)
          source destination s.committed.books funded.source_there funded.destination_there
          funded.apart funded.covered refl (get-conflicts _ s.committed.transactions fresh) h)

  pub Settles-total_balance :
      Settles env user_id type amount key s r s'
      → total_balance s'.committed.books ≡ total_balance s.committed.books
  unfolding movement_record
  Settles-total_balance (rejected e result same) = ap total_balance same
  Settles-total_balance (replayed t used result same) = ap total_balance same
  Settles-total_balance (moved source destination funded fresh books result) =
      ap total_balance books
      ∙ total_balance-moved env s.drawn
          (next_record env user_id type amount key s source destination) source destination
          s.committed.books funded.source_there funded.destination_there funded.apart funded.covered
