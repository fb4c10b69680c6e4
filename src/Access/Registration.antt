-- ===== src/Access/Registration.antt =====
-- Registration (Services/Auth) makes a user, a wallet and a token together, or nothing.
use paycore_backend.Base.{
  ◌+◌, ◌*◌, ◌≡◌, inl, inr, String, true, false, Option, none, some, ◌∷◌, refl, ap, ◌∙◌,
}
use paycore_backend.Core.Config.{access_token_expire_minutes, refresh_token_expire_days}
use paycore_backend.Core.Errors.{AppError, Result, Result-cases, ok, err, integrity}
use paycore_backend.Core.Security.{
  hash_password, create_access_token, create_refresh_token, role_value,
}
use paycore_backend.Models.Rows.{User, UserRole, ActorType}
use paycore_backend.Models.Rows
use paycore_backend.Models.Access.{RefreshToken}
use paycore_backend.Database.{Db}
use paycore_backend.Session.{Env, Session, Action, request, pure, ◌>>=◌, ◌>>◌}
use paycore_backend.Repositories.Wallet
use paycore_backend.Repositories.People.{get_user_by_email}
use paycore_backend.Repositories.User.{new_user, create_user}
use paycore_backend.Repositories.Auth.{create_token}
use paycore_backend.Services.Audit
use paycore_backend.Services.Wallet.{require_no_wallet, create_wallet}
use paycore_backend.Services.Auth.{
  TokenResponse, issue_token_pair, store_refresh_token, open_session, require_new_email, register,
}
use paycore_backend.Access.Inserts.{
  insert_user-cases, insert_wallet-cases, insert_token-cases, log-same, require_new_email-eq-ok,
}

-- What a registration comes to, seen from the committed tables.
pub data Registers (env : Env) (email : String) (db : Db)
    : Result (User × TokenResponse) × Session → Type 0 where
  refused : (e : AppError) (s : Session) → s.committed ≡ db → Registers env email db (err e, s)
  registered :
      (u : User) (w : Rows.Wallet) (t : RefreshToken) (r : TokenResponse) (s : Session)
      → get_user_by_email env email db ≡ none
      → u.email ≡ env.lower_strip email
      → u.role ≡ UserRole.user
      → u.kyc_tier ≡ 0
      → w.user_id ≡ u.id
      → w.balance ≡ 0
      → t.user_id ≡ u.id
      → t.token_hash ≡ env.security.sha256 r.refresh_token
      → t.is_revoked ≡ false
      → s.committed.users ≡ u ∷ db.users
      → s.committed.wallets ≡ w ∷ db.wallets
      → s.committed.refresh_tokens ≡ t ∷ db.refresh_tokens
      → Registers env email db (ok (u, r), s)

-- What remains once the user and the wallet are there: the token, the commit and the audit trail.
abbrev finish : Env → User → Action (User × TokenResponse)
finish env u = do
  response ← open_session env u
  Audit.log env (some u.id) ActorType.user "user.registered" "user" u.id
  pure (u, response)

data Finishes (env : Env) (u : User) (s : Session)
    : Result (User × TokenResponse) × Session → Type 0 where
  failed : (e : AppError) (s' : Session) → s'.committed ≡ s.committed → Finishes env u s (err e, s')
  opened :
      (t : RefreshToken) (r : TokenResponse) (s' : Session)
      → t.user_id ≡ u.id
      → t.token_hash ≡ env.security.sha256 r.refresh_token
      → t.is_revoked ≡ false
      → s'.committed.users ≡ s.db.users
      → s'.committed.wallets ≡ s.db.wallets
      → s'.committed.refresh_tokens ≡ t ∷ s.db.refresh_tokens
      → Finishes env u s (ok (u, r), s')

finish-Finishes : (env : Env) (u : User) (s : Session) → Finishes env u s (finish env u s)
unfolding open_session issue_token_pair create_refresh_token store_refresh_token create_token
finish-Finishes env u s =
    let r : TokenResponse = record {
      access_token = create_access_token env u.id (role_value u.role);
      refresh_token = env.security.token_urlsafe s.drawn;
      expires_in = access_token_expire_minutes * 60;
    } in
    let t : RefreshToken = record {
      id = env.uuid (s.drawn + 1);
      user_id = u.id;
      token_hash = env.security.sha256 r.refresh_token;
      expires_at = env.now + refresh_token_expire_days * 86_400;
      is_revoked = false;
    } in
    let s1 : Session = record s { drawn = s.drawn + 1 + 1 } in
    elim (insert_token-cases t s1) [
      | inl e ↦ rw e (failed integrity s1 refl)
      | inr e ↦
          let db : Db = record s.db { refresh_tokens = t ∷ s.db.refresh_tokens } in
          let (quiet, users, wallets, tokens) =
            log-same env (some u.id) ActorType.user "user.registered" "user" u.id
              (record s1 { db = db; committed = db }) refl in
          rw (e, quiet) (opened t r _ refl refl refl users wallets tokens)
    ]

-- A new user and a wallet in sight, and nothing new committed.
Finishes-Registers :
    (env : Env) (email : String) (u : User) (w : Rows.Wallet) (db : Db) (s : Session)
    (o : Result (User × TokenResponse) × Session)
    → get_user_by_email env email db ≡ none
    → u.email ≡ env.lower_strip email
    → u.role ≡ UserRole.user
    → u.kyc_tier ≡ 0
    → w.user_id ≡ u.id
    → w.balance ≡ 0
    → s.committed ≡ db
    → s.db.users ≡ u ∷ db.users
    → s.db.wallets ≡ w ∷ db.wallets
    → s.db.refresh_tokens ≡ db.refresh_tokens
    → Finishes env u s o
    → Registers env email db (o.0, record o.1 { db = o.1.committed })
Finishes-Registers env email u w db s o new mail role tier owner empty same users wallets tokens
      (failed e s' kept) =
    refused e _ (kept ∙ same)
Finishes-Registers env email u w db s o new mail role tier owner empty same users wallets tokens
      (opened t r s' mine hash fresh users' wallets' tokens') =
    registered u w t r _ new mail role tier owner empty mine hash fresh (users' ∙ users)
      (wallets' ∙ wallets) (tokens' ∙ ap (λ l. t ∷ l) tokens)

-- A registration in a request of its own either raises and leaves the committed tables as they were,
-- or the email was not in use and the commit holds a new user of tier 0, a wallet of his with nothing
-- in it, and a token of his with the hash of the refresh token that is answered.
pub register-Registers :
    (env : Env) (email password full_name : String) (phone : Option String) (s : Session)
    → Registers env email s.committed (request (register env email password full_name phone) s)
unfolding register hash_password create_user create_wallet Wallet.create
register-Registers env email password full_name phone s =
    let hashed = env.security.hashpw s.drawn password in
    let s1 : Session = record s { db = s.committed; drawn = s.drawn + 1 + 1 } in
    let u = new_user env (env.uuid (s.drawn + 1)) email hashed full_name phone UserRole.user in
    elim (Result-cases (require_new_email env email s.committed)) [
      | inl (e, q) ↦ rw q (refused e _ refl)
      | inr (_, q) ↦ elim (insert_user-cases u s1) [
        | inl e ↦ rw (q, e) (refused _ _ refl)
        | inr e ↦
            let s2 : Session = record s1 { db = record s1.db { users = u ∷ s1.db.users } } in
            elim (Result-cases (require_no_wallet u.id s2.db)) [
              | inl (x, a) ↦ rw (q, e, a) (refused x _ refl)
              | inr (_, a) ↦
                  let w : Rows.Wallet = record {
                    id = env.uuid (s.drawn + 1 + 1);
                    user_id = u.id;
                    currency = "NGN";
                    balance = 0;
                    is_active = true;
                    deleted_at = none;
                  } in
                  let s3 : Session = record s2 { drawn = s.drawn + 1 + 1 + 1 } in
                  elim (insert_wallet-cases w s3) [
                    | inl b ↦ rw (q, e, a, b) (refused _ _ refl)
                    | inr b ↦
                        let s4 : Session = record s3 {
                          db = record s3.db {
                            books = record s3.db.books { wallets = w ∷ s3.db.wallets };
                          };
                        } in
                        rw (q, e, a, b)
                          (Finishes-Registers env email u w s.committed s4 (finish env u s4)
                            (require_new_email-eq-ok env email s.committed q) refl refl refl refl
                            refl refl refl refl refl (finish-Finishes env u s4))
                  ]
            ]
      ]
    ]
