-- ===== src/Services/Auth.antt =====
-- app/services/auth.py: registration, login and the rotation of refresh tokens. The dummy bcrypt
-- check of an unknown email has no effect but its time.
use paycore_backend.Base.{
  ℕ, ◌+◌, ◌*◌, String, Bool, not, Option, none, some, is_none, ltb, if◌then◌else◌,
}
use paycore_backend.Core.Config.{access_token_expire_minutes, refresh_token_expire_days}
use paycore_backend.Core.Errors.{conflict, unauthorized, forbidden}
use paycore_backend.Core.Security.{
  hash_password, verify_password, create_access_token, create_refresh_token, hash_refresh_token,
  role_value,
}
use paycore_backend.Models.Rows.{User, UserRole, ActorType}
use paycore_backend.Models.Access.{RefreshToken}
use paycore_backend.Database.{Query, answer, ask, or_raise, or_raise_unless, raise_if}
use paycore_backend.Database as Database
use paycore_backend.Session.{Env, Action, pure, query, commit, ◌>>=◌, ◌>>◌}
use paycore_backend.Repositories.People.{get_user_by_id, get_user_by_email}
use paycore_backend.Repositories.User.{create_user}
use paycore_backend.Repositories.Auth.{create_token, get_by_hash, revoke}
use paycore_backend.Services.Wallet.{create_wallet}
use paycore_backend.Services.Audit

-- `TokenResponse`; `token_type` is always "bearer".
pub record TokenResponse : Type 0 where
  pub access_token : String
  pub refresh_token : String
  pub expires_in : ℕ

-- What `_issue_token_pair` makes: the pair for the client, and the hash to store.
pub record IssuedPair : Type 0 where
  pub response : TokenResponse
  pub refresh_hash : String

unfoldable pub issue_token_pair : Env → User → Action IssuedPair
issue_token_pair env user = do
  refresh ← create_refresh_token env
  pure (record {
    response = record {
      access_token = create_access_token env user.id (role_value user.role);
      refresh_token = refresh.0;
      expires_in = access_token_expire_minutes * 60;
    };
    refresh_hash = refresh.1;
  })

unfoldable pub store_refresh_token : Env → ℕ → String → Action RefreshToken
store_refresh_token env user_id refresh_hash =
    create_token env user_id refresh_hash (env.now + refresh_token_expire_days * 86_400)

-- A pair for the user, its hash stored and committed: how each of the three operations ends.
unfoldable pub open_session : Env → User → Action TokenResponse
open_session env user = do
  issued ← issue_token_pair env user
  store_refresh_token env user.id issued.refresh_hash
  commit
  pure issued.response

unfoldable pub require_new_email : Env → String → Query (Unit {0})
require_new_email env email =
    Database.◌>>=◌ (ask (get_user_by_email env email))
      (λ existing. raise_if (not (is_none existing)) (conflict "EMAIL_CONFLICT"))

unfoldable pub register :
    Env → String → String → String → Option String → Action (User × TokenResponse)
register env email password full_name phone = do
  query (require_new_email env email)
  hashed ← hash_password env password
  user ← create_user env email hashed full_name phone UserRole.user
  create_wallet env user.id "NGN"
  response ← open_session env user
  Audit.log env (some user.id) ActorType.user "user.registered" "user" user.id
  pure (user, response)

unfoldable pub check_credentials : Env → String → String → Query User
check_credentials env email password = Database.◌>>=◌ (ask (get_user_by_email env email)) (λ found.
    Database.◌>>=◌ (or_raise found unauthorized) (λ user.
      Database.◌>>◌
        (raise_if (not (verify_password env password user.hashed_password)) unauthorized)
        (Database.◌>>◌ (raise_if (not user.is_active) forbidden) (answer user))))

unfoldable pub login : Env → String → String → Action TokenResponse
login env email password = do
  user ← query (check_credentials env email password)
  response ← open_session env user
  Audit.log env (some user.id) ActorType.user "user.login" "user" user.id
  pure response

abbrev pub is_usable : RefreshToken → Bool
is_usable token = not token.is_revoked

abbrev pub is_active_user : User → Bool
is_active_user u = u.is_active

-- The token and its user.
unfoldable pub check_refresh : Env → String → Query (RefreshToken × User)
check_refresh env raw_token =
    Database.◌>>=◌ (ask (get_by_hash (hash_refresh_token env raw_token))) (λ found.
      Database.◌>>=◌ (or_raise_unless is_usable found unauthorized) (λ token.
        Database.◌>>◌ (raise_if (ltb token.expires_at env.now) unauthorized) (
          Database.◌>>=◌ (ask (get_user_by_id token.user_id)) (λ owner.
            Database.◌>>=◌ (or_raise_unless is_active_user owner unauthorized)
              (λ user. answer (token, user))))))

unfoldable pub refresh : Env → String → Action TokenResponse
refresh env raw_token = do
  checked ← query (check_refresh env raw_token)
  revoke checked.0
  open_session env checked.1

unfoldable pub revoke_found : Option RefreshToken → Action (Unit {0})
revoke_found none = pure tt
revoke_found (some token) = if token.is_revoked then pure tt else (do revoke token; commit)

unfoldable pub logout : Env → String → Action (Unit {0})
logout env raw_token = do
  found ← query (ask (get_by_hash (hash_refresh_token env raw_token)))
  revoke_found found
