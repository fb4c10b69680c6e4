-- ===== src/Flows.antt =====
-- Money that enters and leaves: every operation on fundings and withdrawals keeps the books sound,
-- those that the session sees and those that are committed.
pub mod Funding
pub mod Withdrawal
pub mod Payout
pub mod Execution
pub mod Reconciliation
pub mod Once
pub mod Opening
pub mod Registration
pub mod Tasks
use paycore_backend.Base.{
  ℕ, String, Option, ◌≡◌, Bool, true, false, some, arith, ap, sym, subst, refl, if◌then◌else◌,
}
use paycore_backend.Models.Rows.{ActorType}
use paycore_backend.Core.Errors.{Result, ok, err}
use paycore_backend.Session.{Env, Session, Action, IsClean, resume, request}
use paycore_backend.Services.Audit
use paycore_backend.Base.Table.{find, get, get-find, find-All}
use paycore_backend.Models.Transaction.{Transaction}
use paycore_backend.Database.{Books}
use paycore_backend.Repositories.Transaction.{transaction_id}
use paycore_backend.Books.{IsSound, OneSided}

pub record Sound (s : Session) : Type 0 where
  pub seen : IsSound s.db.books
  pub durable : IsSound s.committed.books

-- From a session without pending writes the audit trail leaves the books alone.
pub log-books :
    (env : Env) (actor : Option ℕ) (kind : ActorType) (action target : String) (id : ℕ)
    (s : Session)
    → IsClean s
    → ((Audit.log env actor kind action target id s).1.db.books ≡ s.committed.books)
      × ((Audit.log env actor kind action target id s).1.committed.books ≡ s.committed.books)
unfolding Audit.log
log-books env actor kind action target id s clean = ground arith

pub log-Sound :
    (env : Env) (actor : Option ℕ) (kind : ActorType) (action target : String) (id : ℕ)
    (s : Session)
    → IsClean s
    → IsSound s.committed.books
    → Sound (Audit.log env actor kind action target id s).1
log-Sound env actor kind action target id s clean h =
    let (seen, durable) = log-books env actor kind action target id s clean in
    record { seen = subst IsSound (sym seen) h; durable = subst IsSound (sym durable) h }

-- A row that a query of sound books returns: it is the row of its id, and one-sided.
pub found-facts :
    (b : Books) (p : Transaction → Bool) {t : Transaction}
    → IsSound b
    → find p b.transactions ≡ some t
    → (get transaction_id t.id b.transactions ≡ some t) × OneSided t
found-facts b p h e = (
  get-find transaction_id p b.transactions h.transactions_keyed e,
  find-All OneSided p b.transactions h.one_sided e,
)

-- A chain keeps the books sound if its first action does and the rest does on its value.
pub resume-Sound :
    {A B : Type 0} (o : Result A × Session) (f : A → Action B)
    → Sound o.1
    → ((a : A) → o.0 ≡ ok a → Sound (f a o.1).1)
    → Sound (resume o f).1
resume-Sound (ok a, s) f h k = k a refl
resume-Sound (err e, s) f h k = h

pub if-Sound :
    {A : Type 0} (b : Bool) (m n : Action A) (s : Session)
    → Sound (m s).1
    → Sound (n s).1
    → Sound ((if b then m else n) s).1
if-Sound true m n s h k = h
if-Sound false m n s h k = k

-- Committing what is sound.
pub committed-Sound : (s : Session) → Sound s → Sound (record s { committed = s.db })
committed-Sound s h = record { seen = h.seen; durable = h.seen }

-- A request of its own needs only the committed books.
pub request-Sound :
    {A : Type 0} (m : Action A) (s : Session)
    → IsSound s.committed.books
    → ((s' : Session) → Sound s' → Sound (m s').1)
    → IsSound (request m s).1.committed.books
request-Sound m s h keeps =
    (keeps (record s { db = s.committed }) (record { seen = h; durable = h })).durable
