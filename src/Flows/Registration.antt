-- ===== src/Flows/Registration.antt =====
-- Registration (Services/Auth) opens a wallet and moves no money.
use paycore_backend.Base.{◌+◌, ◌*◌, ◌≡◌, inl, inr, String, Option, some, refl, false}
use paycore_backend.Core.Config.{refresh_token_expire_days}
use paycore_backend.Core.Errors.{ok}
use paycore_backend.Core.Security.{hash_password, create_refresh_token}
use paycore_backend.Models.Rows.{User, UserRole, ActorType}
use paycore_backend.Models.Access.{RefreshToken}
use paycore_backend.Session.{Env, Session, IsClean, query}
use paycore_backend.Repositories.User.{new_user, create_user}
use paycore_backend.Repositories.Auth.{create_token}
use paycore_backend.Services.Audit
use paycore_backend.Services.Wallet.{create_wallet}
use paycore_backend.Services.Auth.{
  TokenResponse, issue_token_pair, store_refresh_token, open_session, require_new_email, register,
}
use paycore_backend.Access.Inserts.{insert_user-cases, insert_token-cases}
use paycore_backend.Flows.{Sound, resume-Sound, log-Sound}
use paycore_backend.Flows.Opening.{wallet-Sound}

create_user-Sound :
    (env : Env) (email hashed full_name : String) (phone : Option String) (role : UserRole)
    (s : Session)
    → Sound s
    → Sound (create_user env email hashed full_name phone role s).1
unfolding create_user
create_user-Sound env email hashed full_name phone role s h =
    let s1 : Session = record s { drawn = s.drawn + 1 } in
    elim (insert_user-cases (new_user env (env.uuid s.drawn) email hashed full_name phone role)
      s1) [
        | inl e ↦ rw e (record { seen = h.seen; durable = h.durable })
        | inr e ↦ rw e (record { seen = h.seen; durable = h.durable })
      ]

-- A session that was opened is committed, books included.
open_session-Sound :
    (env : Env) (u : User) (s : Session)
    → Sound s
    → Sound (open_session env u s).1
      × ((r : TokenResponse) → (open_session env u s).0 ≡ ok r → IsClean (open_session env u s).1)
unfolding open_session issue_token_pair create_refresh_token store_refresh_token create_token
open_session-Sound env u s h =
    let t : RefreshToken = record {
      id = env.uuid (s.drawn + 1);
      user_id = u.id;
      token_hash = env.security.sha256 (env.security.token_urlsafe s.drawn);
      expires_at = env.now + refresh_token_expire_days * 86_400;
      is_revoked = false;
    } in
    let s1 : Session = record s { drawn = s.drawn + 1 + 1 } in
    elim (insert_token-cases t s1) [
      | inl e ↦ rw e (record { seen = h.seen; durable = h.durable }, λ r o. absurd (cc))
      | inr e ↦ rw e (record { seen = h.seen; durable = h.seen }, λ r o. refl)
    ]

-- A registration keeps sound books sound, whatever of it fails.
pub register-Sound :
    (env : Env) (email password full_name : String) (phone : Option String) (s : Session)
    → Sound s
    → Sound (register env email password full_name phone s).1
unfolding register hash_password
register-Sound env email password full_name phone s h =
    let hashed = env.security.hashpw s.drawn password in
    let s1 : Session = record s { drawn = s.drawn + 1 } in
    let h1 : Sound s1 = record { seen = h.seen; durable = h.durable } in
    let made = create_user-Sound env email hashed full_name phone UserRole.user s1 h1 in
    resume-Sound (query (require_new_email env email) s) _ h λ _ _.
      (resume-Sound (create_user env email hashed full_name phone UserRole.user s1) _ made λ u _.
        (let opened = wallet-Sound env u.id "NGN" _ made in
          resume-Sound (create_wallet env u.id "NGN" _) _ opened λ _ _.
            (let (sound, clean) = open_session-Sound env u _ opened in
              resume-Sound (open_session env u _) _ sound λ r e.
                (let logged =
                    log-Sound env (some u.id) ActorType.user "user.registered" "user" u.id _
                      (clean r e) sound.durable in
                  resume-Sound
                    (Audit.log env (some u.id) ActorType.user "user.registered" "user" u.id _) _
                    logged λ _ _. logged))))
