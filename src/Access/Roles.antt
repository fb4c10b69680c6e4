-- ===== src/Access/Roles.antt =====
-- The administrator's endpoints (Api/Admin) are closed to other roles.
use paycore_backend.Base.{
  ◌+◌, ◌*◌, ◌<◌, ◌≤◌, ◌≡◌, String, false, some, [], ◌∷◌, refl, arith, ℕ, Option, if◌then◌else◌,
}
use paycore_backend.Core.Config.{access_token_expire_minutes}
use paycore_backend.Core.Errors.{ok, err, forbidden}
use paycore_backend.Core.Security.{access_claims, role_value}
use paycore_backend.Core.Deps.{get_current_user, require_role, is_one_of}
use paycore_backend.Models.Rows.{User, UserRole}
use paycore_backend.Database.{Db}
use paycore_backend.Session.{Env, Session, Action}
use paycore_backend.Repositories.People.{get_user_by_id}
use paycore_backend.Repositories.User.{is_role}
use paycore_backend.Services.Auth.{TokenResponse, login, check_credentials}
use paycore_backend.Models.Access.{KycStatus}
use paycore_backend.Repositories.Listing.{AdminFilter}
use paycore_backend.Repositories.AuditLog.{AuditFilter}
use paycore_backend.Api.Admin.{
  as_admin, approve_submission, reject_submission, list_kyc_submissions, list_audit_logs,
  list_webhook_deliveries, list_all_transactions, get_any_transaction, list_all_users, get_any_user,
  get_kyc_submission, run_reconciliation,
}
use paycore_backend.Access.Login.{login-get_current_user}

not_admin :
    (role : UserRole)
    → is_role role UserRole.admin ≡ false
    → is_one_of (role_value role) ("admin" ∷ []) ≡ false
not_admin UserRole.user e = refl
not_admin UserRole.merchant e = refl
not_admin UserRole.admin e = absurd (cc)

require_role-forbidden :
    (env : Env) (token : String) (db : Db) (u : User)
    → get_current_user env token db ≡ (if u.is_active then ok u else err forbidden)
    → is_one_of (role_value u.role) ("admin" ∷ []) ≡ false
    → require_role env ("admin" ∷ []) token db ≡ err forbidden
unfolding require_role
require_role-forbidden env token db u e other = ground arith

as_admin-forbidden :
    {A : Type 0} (env : Env) (token : String) (endpoint : User → Action A) (s : Session) (u : User)
    → get_current_user env token s.db ≡ (if u.is_active then ok u else err forbidden)
    → is_role u.role UserRole.admin ≡ false
    → as_admin env token endpoint s ≡ (err forbidden, s)
unfolding as_admin
as_admin-forbidden env token endpoint s u e other =
    rw (require_role-forbidden env token s.db u e (not_admin u.role other)) refl

-- The access token of a login, shown after it was issued and before it expires, where its user is
-- not deleted and has a role that is not ADMIN by then, opens none of the eleven endpoints of
-- administrators: each raises ForbiddenError and leaves the session as it is. Login and request
-- have the same `Security`, whose JWT decodes the claims that it encoded from the time of their
-- `iat` until that of their `exp`.
pub login-no_admin :
    (env env' : Env) (email password : String) (s s' : Session) {r : TokenResponse}
    {user now_user : User} (id limit offset : ℕ) (text : String) (status : Option KycStatus)
    (role : Option UserRole) (tier : Option ℕ) (f : AdminFilter) (g : AuditFilter)
    → ((now : ℕ)
        → env.now ≤ now
        → now < env.now + access_token_expire_minutes * 60
        → env.security.decode now
            (env.security.encode (access_claims env user.id (role_value user.role)))
          ≡ some (access_claims env user.id (role_value user.role)))
    → env'.security ≡ env.security
    → env.now ≤ env'.now
    → env'.now < env.now + access_token_expire_minutes * 60
    → (login env email password s).0 ≡ ok r
    → check_credentials env email password s.db ≡ ok user
    → get_user_by_id user.id s'.db ≡ some now_user
    → is_role now_user.role UserRole.admin ≡ false
    → (approve_submission env' r.access_token id s' ≡ (err forbidden, s'))
      × (reject_submission env' r.access_token id text s' ≡ (err forbidden, s'))
      × (list_kyc_submissions env' r.access_token status limit offset s' ≡ (err forbidden, s'))
      × (list_audit_logs env' r.access_token g limit offset s' ≡ (err forbidden, s'))
      × (list_webhook_deliveries env' r.access_token limit offset s' ≡ (err forbidden, s'))
      × (list_all_transactions env' r.access_token f limit offset s' ≡ (err forbidden, s'))
      × (get_any_transaction env' r.access_token text s' ≡ (err forbidden, s'))
      × (list_all_users env' r.access_token role tier limit offset s' ≡ (err forbidden, s'))
      × (get_any_user env' r.access_token id s' ≡ (err forbidden, s'))
      × (get_kyc_submission env' r.access_token id s' ≡ (err forbidden, s'))
      × (run_reconciliation env' r.access_token s' ≡ (err forbidden, s'))
unfolding list_audit_logs approve_submission reject_submission list_kyc_submissions
    list_webhook_deliveries list_all_transactions get_any_transaction list_all_users get_any_user
    get_kyc_submission run_reconciliation
login-no_admin env env' email password s s' {r} {user} {now_user} id limit offset text status role
      tier f g jwt same later early e checked found other =
    let who =
      login-get_current_user env env' email password s s'.db {r = r} {user = user}
        {now_user = now_user} jwt same later early e checked found in
    let closed = λ (A : Type 0) (endpoint : User → Action A).
      as_admin-forbidden env' r.access_token endpoint s' now_user who other in
    (
      closed _ _,
      closed _ _,
      closed _ _,
      closed _ _,
      closed _ _,
      closed _ _,
      closed _ _,
      closed _ _,
      closed _ _,
      closed _ _,
      closed _ _,
    )
