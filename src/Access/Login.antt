-- ===== src/Access/Login.antt =====
-- What a login hands out (Services/Auth) identifies the user to app/core/deps.py while it lasts.
use paycore_backend.Base.{
  ℕ, ◌+◌, ◌*◌, ◌<◌, ◌≤◌, ◌≡◌, String, some, refl, subst, sym, ap, ◌∙◌, Bool-cases, inl, inr,
  if◌then◌else◌,
}
use paycore_backend.Core.Config.{access_token_expire_minutes}
use paycore_backend.Core.Errors.{ok, err, Result, forbidden}
use paycore_backend.Core.Security.{
  create_access_token, create_refresh_token, access_claims, decode_token, role_value,
}
use paycore_backend.Core.Deps.{get_current_user}
use paycore_backend.Models.Rows.{User, ActorType}
use paycore_backend.Database.{Db}
use paycore_backend.Session.{Env, Session, AccessClaims, Action, resume}
use paycore_backend.Repositories.People.{get_user_by_id}
use paycore_backend.Keeping.{ok-injective}
use paycore_backend.Services.Audit
use paycore_backend.Services.Auth.{
  TokenResponse, issue_token_pair, store_refresh_token, open_session, check_credentials, login,
}

-- The answer of a chain whose first action's value is passed on.
resume-value :
    {A B : Type 0} (o : Result A × Session) (f : A → Action B) {b : B}
    → (resume o f).0 ≡ ok b
    → (a : A) × (o.0 ≡ ok a) × ((f a o.1).0 ≡ ok b)
resume-value (ok a, s) f e = (a, refl, e)
resume-value (err x, s) f e = absurd (cc)

open_session-token :
    (env : Env) (user : User) (s : Session) {r : TokenResponse}
    → (open_session env user s).0 ≡ ok r
    → r.access_token ≡ create_access_token env user.id (role_value user.role)
unfolding open_session issue_token_pair create_refresh_token
open_session-token env user s {r} e =
    let (_, _, q) = resume-value (store_refresh_token env user.id _ _) _ e in
    let same : r ≡ _ = sym (ok-injective q) in ap (λ (x : TokenResponse). x.access_token) same

-- The token of a login that goes through is the token of a user whose credentials were checked.
pub login-token :
    (env : Env) (email password : String) (s : Session) {r : TokenResponse}
    → (login env email password s).0 ≡ ok r
    → (user : User) × (check_credentials env email password s.db ≡ ok user)
      × (r.access_token ≡ create_access_token env user.id (role_value user.role))
unfolding login
login-token env email password s {r} e =
    let (user, checked, opened) = resume-value (check_credentials env email password s.db, s) _ e in
    let (r', q, logged) = resume-value (open_session env user s) _ opened in
    let (_, _, last) =
      resume-value (Audit.log env (some user.id) ActorType.user "user.login" "user" user.id _) _
        logged in
    let same : r' ≡ r = ok-injective last in
    (
      user,
      checked,
      subst
          (λ (x : TokenResponse).
            x.access_token ≡ create_access_token env user.id (role_value user.role))
          same (open_session-token env user s q),
    )

-- A token whose claims decode is answered with the user's row.
current_user :
    (env : Env) (token : String) (db : Db) (claims : AccessClaims) (user_id : ℕ) {now_user : User}
    → decode_token env token ≡ some claims
    → claims.type ≡ "access"
    → claims.sub ≡ some user_id
    → get_user_by_id user_id db ≡ some now_user
    → get_current_user env token db ≡ (if now_user.is_active then ok now_user else err forbidden)
unfolding get_current_user
current_user env token db claims user_id {now_user} decoded kind whose found =
    rw (decoded, kind, whose, found)
      (elim (Bool-cases now_user.is_active) [ inl e ↦ rw e refl | inr e ↦ rw e refl ])

-- The access token of a login that goes through, shown to `get_current_user` after it was issued
-- and before it expires, stands for the user whose password was checked: if that user is not
-- deleted, it answers with his row as it is then, or raises ForbiddenError where the account has
-- been deactivated. Both calls have the same `Security`, whose JWT decodes the claims that it
-- encoded from the time of their `iat` until that of their `exp`.
pub login-get_current_user :
    (env env' : Env) (email password : String) (s : Session) (db : Db) {r : TokenResponse}
    {user now_user : User}
    → ((now : ℕ)
        → env.now ≤ now
        → now < env.now + access_token_expire_minutes * 60
        → env.security.decode now
            (env.security.encode (access_claims env user.id (role_value user.role)))
          ≡ some (access_claims env user.id (role_value user.role)))
    → env'.security ≡ env.security
    → env.now ≤ env'.now
    → env'.now < env.now + access_token_expire_minutes * 60
    → (login env email password s).0 ≡ ok r
    → check_credentials env email password s.db ≡ ok user
    → get_user_by_id user.id db ≡ some now_user
    → get_current_user env' r.access_token db
      ≡ (if now_user.is_active then ok now_user else err forbidden)
unfolding decode_token create_access_token
login-get_current_user env env' email password s db {r} {user} {now_user} jwt same later early e
      checked found =
    let (user', checked', token) = login-token env email password s e in
    let same_user : user' ≡ user = ok-injective (sym checked' ∙ checked) in
    let claims = access_claims env user.id (role_value user.role) in
    let issued : r.access_token ≡ env.security.encode claims =
      subst
        (λ (x : User).
          r.access_token ≡ env.security.encode (access_claims env x.id (role_value x.role)))
        same_user token in
    let decoded : env'.security.decode env'.now r.access_token ≡ some claims =
      subst (λ sec. sec.decode env'.now r.access_token ≡ some claims) (sym same)
        (subst (λ t. env.security.decode env'.now t ≡ some claims) (sym issued)
          (jwt env'.now later early)) in
    current_user env' r.access_token db claims user.id decoded refl refl found
