-- ===== src/Access/Inserts.antt =====
-- The inserts that registration makes (Services/Auth), each with its two answers.
use paycore_backend.Base.{
  ℕ, ◌≡◌, ◌⊎◌, inl, inr, String, Option, none, ◌∷◌, refl, arith, is_none, Bool-cases,
}
use paycore_backend.Base.Table.{find}
use paycore_backend.Core.Errors.{ok, err, integrity}
use paycore_backend.Models.Rows.{User, UserRole, ActorType}
use paycore_backend.Models.Rows
use paycore_backend.Models.Access.{RefreshToken}
use paycore_backend.Database.{Db}
use paycore_backend.Session.{Env, Session, IsClean}
use paycore_backend.Repositories.Wallet
use paycore_backend.Repositories.People.{get_user_by_email}
use paycore_backend.Repositories.User.{user_clashes, insert_user}
use paycore_backend.Repositories.Auth.{token_clashes, insert_token}
use paycore_backend.Services.Audit
use paycore_backend.Services.Auth.{require_new_email}

pub insert_user-cases :
    (u : User) (s : Session)
    → (insert_user u s ≡ (err integrity, s))
      ⊎ (insert_user u s ≡ (ok u, record s { db = record s.db { users = u ∷ s.db.users } }))
unfolding insert_user
insert_user-cases u s = elim (Bool-cases (is_none (find (user_clashes u) s.db.users))) [
  | inl e ↦ inr (rw e refl)
  | inr e ↦ inl (rw e refl)
]

pub insert_wallet-cases :
    (w : Rows.Wallet) (s : Session)
    → (Wallet.insert w s ≡ (err integrity, s))
      ⊎ (Wallet.insert w s ≡ (
        ok w,
        record s { db = record s.db { books = record s.db.books { wallets = w ∷ s.db.wallets } } },
      ))
unfolding Wallet.insert
insert_wallet-cases w s = elim (Bool-cases (Wallet.conflicts w s.db.wallets)) [
  | inl e ↦ inl (rw e refl)
  | inr e ↦ inr (rw e refl)
]

pub insert_token-cases :
    (t : RefreshToken) (s : Session)
    → (insert_token t s ≡ (err integrity, s))
      ⊎ (insert_token t s
          ≡ (ok t, record s { db = record s.db { refresh_tokens = t ∷ s.db.refresh_tokens } }))
unfolding insert_token
insert_token-cases t s = elim (Bool-cases (is_none (find (token_clashes t) s.db.refresh_tokens))) [
  | inl e ↦ inr (rw e refl)
  | inr e ↦ inl (rw e refl)
]

pub log-same :
    (env : Env) (actor : Option ℕ) (kind : ActorType) (action target : String) (id : ℕ)
    (s : Session)
    → IsClean s
    → ((Audit.log env actor kind action target id s).0 ≡ ok tt)
      × ((Audit.log env actor kind action target id s).1.committed.users ≡ s.committed.users)
      × ((Audit.log env actor kind action target id s).1.committed.wallets ≡ s.committed.wallets)
      × ((Audit.log env actor kind action target id s).1.committed.refresh_tokens
          ≡ s.committed.refresh_tokens)
unfolding Audit.log
log-same env actor kind action target id s clean =
    (ground arith, ground arith, ground arith, ground arith)

pub require_new_email-eq-ok :
    (env : Env) (email : String) (db : Db)
    → require_new_email env email db ≡ ok tt
    → get_user_by_email env email db ≡ none
unfolding require_new_email
require_new_email-eq-ok env email db e = ground arith
