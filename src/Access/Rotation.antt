-- ===== src/Access/Rotation.antt =====
-- What the operations of Services/Auth keep of a refresh token that is spent.
use paycore_backend.Base.{
  ℕ, ◌≡◌, false, String, Option, none, some, arith, refl, Bool-cases, inl, inr, is_none,
  Option-cases, subst, sym,
}
use paycore_backend.Base.Table.{find}
use paycore_backend.Core.Errors.{ok}
use paycore_backend.Core.Security.{hash_password, create_refresh_token, hash_refresh_token}
use paycore_backend.Models.Rows.{User, UserRole, ActorType}
use paycore_backend.Models.Rows
use paycore_backend.Models.Access.{RefreshToken}
use paycore_backend.Session.{Env, Session, query, commit}
use paycore_backend.Repositories.Wallet
use paycore_backend.Repositories.Auth.{
  token_clashes, insert_token, create_token, get_by_hash, revoke,
}
use paycore_backend.Repositories.User.{user_clashes, insert_user, create_user}
use paycore_backend.Services.Audit
use paycore_backend.Services.Wallet.{create_wallet, require_no_wallet}
use paycore_backend.Services.Auth.{
  issue_token_pair, store_refresh_token, open_session, register, check_credentials, login,
  check_refresh, refresh, revoke_found, logout, require_new_email,
}
use paycore_backend.Keeping.{resume-keeps}
use paycore_backend.Access.Tokens.{IsSpent, IsSpent-insert, IsSpent-revoke}

-- The token of the hash is revoked for the session and for all others.
pub record Spent (hash : String) (s : Session) : Type 0 where
  pub seen : IsSpent hash s.db.refresh_tokens
  pub durable : IsSpent hash s.committed.refresh_tokens

module _ (hash : String) where
  -- What does not touch the tokens.
  same :
      (s s' : Session)
      → s'.db.refresh_tokens ≡ s.db.refresh_tokens
      → s'.committed.refresh_tokens ≡ s.committed.refresh_tokens
      → Spent hash s
      → Spent hash s'
  same s s' e c h = record {
    seen = subst (IsSpent hash) (sym e) h.seen;
    durable = subst (IsSpent hash) (sym c) h.durable;
  }

  module _ (s : Session) (h : Spent hash s) where
    insert_token-keeps : (t : RefreshToken) → Spent hash (insert_token t s).1
    unfolding insert_token
    insert_token-keeps t = elim (Option-cases (find (token_clashes t) s.db.refresh_tokens)) [
      | inl e ↦ rw e (record {
        seen = IsSpent-insert hash s.db.refresh_tokens t e h.seen;
        durable = h.durable;
      })
      | inr (_, e) ↦ rw e h
    ]

    insert_user-keeps : (u : User) → Spent hash (insert_user u s).1
    unfolding insert_user
    insert_user-keeps u = elim (Bool-cases (is_none (find (user_clashes u) s.db.users))) [
      | inl e ↦ rw e (record { seen = h.seen; durable = h.durable })
      | inr e ↦ rw e h
    ]

    insert_wallet-keeps : (w : Rows.Wallet) → Spent hash (Wallet.insert w s).1
    unfolding Wallet.insert
    insert_wallet-keeps w = elim (Bool-cases (Wallet.conflicts w s.db.wallets)) [
      | inl e ↦ rw e h
      | inr e ↦ rw e (record { seen = h.seen; durable = h.durable })
    ]

    revoke-keeps :
        (other : String) (t : RefreshToken)
        → get_by_hash other s.db ≡ some t
        → Spent hash (revoke t s).1
    unfolding revoke get_by_hash
    revoke-keeps other t e = record {
      seen = IsSpent-revoke hash s.db.refresh_tokens other t e h.seen;
      durable = h.durable;
    }

    commit-keeps : Spent hash (record s { committed = s.db })
    commit-keeps = record { seen = h.seen; durable = h.seen }

  module _ (env : Env) (s : Session) (h : Spent hash s) where
    log-keeps :
        (actor : Option ℕ) (kind : ActorType) (action target : String) (id : ℕ)
        → Spent hash (Audit.log env actor kind action target id s).1
    unfolding Audit.log
    log-keeps actor kind action target id = elim (Bool-cases env.audit_up) [
      | inl e ↦ rw e (record { seen = h.seen; durable = h.seen })
      | inr e ↦ rw e (record { seen = h.durable; durable = h.durable })
    ]

    create_wallet-keeps : (user_id : ℕ) → Spent hash (create_wallet env user_id "NGN" s).1
    unfolding create_wallet Wallet.create
    create_wallet-keeps user_id =
        resume-keeps (Spent hash) (query (require_no_wallet user_id) s) _ h
          λ _ _ h'. (insert_wallet-keeps _ (record { seen = h'.seen; durable = h'.durable }) _)

    store_refresh_token-keeps :
        (user_id : ℕ) (other : String) → Spent hash (store_refresh_token env user_id other s).1
    unfolding store_refresh_token create_token
    store_refresh_token-keeps user_id other =
        insert_token-keeps _ (record { seen = h.seen; durable = h.durable }) _

  pub open_session-keeps :
      (env : Env) (user : User) (s : Session)
      → Spent hash s
      → Spent hash (open_session env user s).1
  unfolding open_session issue_token_pair create_refresh_token
  open_session-keeps env user s h =
      resume-keeps (Spent hash) (store_refresh_token env user.id _ _) _
        (store_refresh_token-keeps env _ (record { seen = h.seen; durable = h.durable }) user.id _)
        λ _ _ h'. (commit-keeps _ h')

  pub register-keeps :
      (env : Env) (email password full_name : String) (phone : Option String) (s : Session)
      → Spent hash s
      → Spent hash (register env email password full_name phone s).1
  unfolding register hash_password create_user
  register-keeps env email password full_name phone s h =
      resume-keeps (Spent hash) (query (require_new_email env email) s) _ h λ _ _ h1.
        (resume-keeps (Spent hash) (insert_user _ _) _
          (insert_user-keeps _ (record { seen = h1.seen; durable = h1.durable }) _)
          λ user _ h2.
            (resume-keeps (Spent hash) (create_wallet env user.id "NGN" _) _
              (create_wallet-keeps env _ h2 user.id)
              λ _ _ h3.
                (resume-keeps (Spent hash) (open_session env user _) _
                  (open_session-keeps env user _ h3)
                  λ _ _ h4.
                    (resume-keeps (Spent hash) (Audit.log env _ _ _ _ _ _) _
                      (log-keeps env _ h4 _ _ _ _ _) (λ _ _ h5. h5)))))

  pub login-keeps :
      (env : Env) (email password : String) (s : Session)
      → Spent hash s
      → Spent hash (login env email password s).1
  unfolding login
  login-keeps env email password s h =
      resume-keeps (Spent hash) (query (check_credentials env email password) s) _ h λ user _ h1.
        (resume-keeps (Spent hash) (open_session env user _) _ (open_session-keeps env user _ h1)
          λ _ _ h2.
            (resume-keeps (Spent hash) (Audit.log env _ _ _ _ _ _) _ (log-keeps env _ h2 _ _ _ _ _)
              (λ _ _ h3. h3)))

  revoke_found-keeps :
      (s : Session) (other : String) (o : Option RefreshToken)
      → get_by_hash other s.db ≡ o
      → Spent hash s
      → Spent hash (revoke_found o s).1
  unfolding revoke_found revoke
  revoke_found-keeps s other none e h = h
  revoke_found-keeps s other (some t) e h = elim (Bool-cases t.is_revoked) [
    | inl q ↦ rw q h
    | inr q ↦ rw q (
        resume-keeps (Spent hash) (revoke t s) (λ _. commit) (revoke-keeps s h other t e)
          λ _ _ h'. (commit-keeps _ h'))
  ]

-- What a refresh was let through with.
pub check_refresh-eq-ok :
    (env : Env) (raw : String) (s : Session) {pair : RefreshToken × User}
    → check_refresh env raw s.db ≡ ok pair
    → (get_by_hash (hash_refresh_token env raw) s.db ≡ some pair.0) × (pair.0.is_revoked ≡ false)
unfolding check_refresh
check_refresh-eq-ok env raw s e = ground arith

module _ (hash : String) where
  pub refresh-keeps :
      (env : Env) (raw : String) (s : Session) → Spent hash s → Spent hash (refresh env raw s).1
  unfolding refresh
  refresh-keeps env raw s h =
      resume-keeps (Spent hash) (query (check_refresh env raw) s) _ h λ pair e h1.
        (resume-keeps (Spent hash) (revoke pair.0 s) _
          (revoke-keeps hash s h1 (hash_refresh_token env raw) pair.0
            (check_refresh-eq-ok env raw s e).0)
          λ _ _ h2. (open_session-keeps hash env pair.1 _ h2))

  pub logout-keeps :
      (env : Env) (raw : String) (s : Session) → Spent hash s → Spent hash (logout env raw s).1
  unfolding logout
  logout-keeps env raw s h = revoke_found-keeps hash s (hash_refresh_token env raw) _ refl h
