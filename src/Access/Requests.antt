-- ===== src/Access/Requests.antt =====
-- The requests of Services/Auth, one after another: what is spent stays spent.
use paycore_backend.Base.{String, Option}
use paycore_backend.Session.{Env, Session, Action, request}
use paycore_backend.Services.Auth.{register, login, refresh, logout}
use paycore_backend.Access.Tokens.{IsSpent}
use paycore_backend.Access.Rotation.{
  Spent, register-keeps, login-keeps, refresh-keeps, logout-keeps,
}

-- The requests that touch refresh tokens, one after another, each with its own surroundings.
pub data Requests (s : Session) : Session → Type 0 where
  none_yet : Requests s s
  registered :
      (env : Env) (email password full_name : String) (phone : Option String) (s' : Session)
      → Requests s s'
      → Requests s (request (register env email password full_name phone) s').1
  logged_in :
      (env : Env) (email password : String) (s' : Session)
      → Requests s s'
      → Requests s (request (login env email password) s').1
  refreshed :
      (env : Env) (raw : String) (s' : Session)
      → Requests s s'
      → Requests s (request (refresh env raw) s').1
  logged_out :
      (env : Env) (raw : String) (s' : Session)
      → Requests s s'
      → Requests s (request (logout env raw) s').1

module _ (hash : String) where
  pub request-keeps :
      {A : Type 0} (m : Action A) (s : Session)
      → ((s' : Session) → Spent hash s' → Spent hash (m s').1)
      → IsSpent hash s.committed.refresh_tokens
      → IsSpent hash (request m s).1.committed.refresh_tokens
  request-keeps m s keeps h =
      (keeps (record s { db = s.committed }) (record { seen = h; durable = h })).durable

  pub Requests-keep :
      {s s' : Session}
      → Requests s s'
      → IsSpent hash s.committed.refresh_tokens
      → IsSpent hash s'.committed.refresh_tokens
  Requests-keep none_yet h = h
  Requests-keep (registered env email password full_name phone s' r) h =
      request-keeps (register env email password full_name phone) s'
        (register-keeps hash env email password full_name phone) (Requests-keep r h)
  Requests-keep (logged_in env email password s' r) h =
      request-keeps (login env email password) s' (login-keeps hash env email password)
        (Requests-keep r h)
  Requests-keep (refreshed env raw s' r) h =
      request-keeps (refresh env raw) s' (refresh-keeps hash env raw) (Requests-keep r h)
  Requests-keep (logged_out env raw s' r) h =
      request-keeps (logout env raw) s' (logout-keeps hash env raw) (Requests-keep r h)
