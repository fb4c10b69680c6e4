-- ===== src/Core/Security.antt =====
-- app/core/security.py: passwords, tokens and API keys over the libraries that `Security` stands for.
-- `bcrypt.gensalt`, `secrets.token_urlsafe` and `uuid4` draw from the counter of the session.
use Prim.Native.String as Text
use paycore_backend.Base.{ℕ, zero, suc, ◌+◌, ◌*◌, String, Bool, Option, some}
use paycore_backend.Core.Config.{access_token_expire_minutes}
use paycore_backend.Core.Errors.{ok}
use paycore_backend.Models.Rows.{UserRole}
use paycore_backend.Session.{Env, AccessClaims, Action, pure, uuid4, ◌>>=◌}

abbrev pub role_value : UserRole → String
role_value UserRole.user = "user"
role_value UserRole.merchant = "merchant"
role_value UserRole.admin = "admin"

-- A number drawn at random.
abbrev draw : Action ℕ
draw s = (ok s.drawn, record s { drawn = s.drawn + 1 })

unfoldable pub hash_password : Env → String → Action String
hash_password env plain = do salt ← draw; pure (env.security.hashpw salt plain)

unfoldable pub verify_password : Env → String → String → Bool
verify_password env plain hashed = env.security.checkpw plain hashed

abbrev pub access_claims : Env → ℕ → String → AccessClaims
access_claims env user_id role = record {
  sub = some user_id;
  role = role;
  type = "access";
  iat = env.now;
  exp = env.now + access_token_expire_minutes * 60;
}

unfoldable pub create_access_token : Env → ℕ → String → String
create_access_token env user_id role = env.security.encode (access_claims env user_id role)

unfoldable pub hash_refresh_token : Env → String → String
hash_refresh_token env raw = env.security.sha256 raw

-- The raw token and its hash.
unfoldable pub create_refresh_token : Env → Action (String × String)
create_refresh_token env = do
  n ← draw
  let raw = env.security.token_urlsafe n
  pure (raw, env.security.sha256 raw)

unfoldable pub decode_token : Env → String → Option AccessClaims
decode_token env token = env.security.decode env.now token

-- `s[:n]`
unfoldable pub first_chars : ℕ → String → String
first_chars zero s = ""
first_chars (suc n) Text.[] = ""
first_chars (suc n) (Text.◌∷◌ c s) = Text.◌∷◌ c (first_chars n s)

-- The raw key, its prefix and its hash.
unfoldable pub generate_api_key : Env → Action (String × String × String)
generate_api_key env = do
  id ← uuid4 env
  salt ← draw
  let raw = Text.◌++◌ "pk_live_" (env.hex id)
  pure (raw, first_chars 8 raw, env.security.hashpw salt raw)

unfoldable pub verify_api_key : Env → String → String → Bool
verify_api_key env raw hashed = env.security.checkpw raw hashed
