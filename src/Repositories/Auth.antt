-- ===== src/Repositories/Auth.antt =====
-- app/repositories/auth.py: the table of refresh tokens.
use paycore_backend.Base.{
  ℕ, String, Bool, true, false, ◌||◌, Option, ◌∷◌, map, ◌==◌, str_eq, is_none, if◌then◌else◌,
}
use paycore_backend.Base.Table.{find, put}
use paycore_backend.Core.Errors.{integrity}
use paycore_backend.Models.Access.{RefreshToken}
use paycore_backend.Database.{Db}
use paycore_backend.Session.{Env, Action, pure, raise, modify, uuid4, ◌>>=◌, ◌>>◌}

abbrev pub token_id : RefreshToken → ℕ
token_id t = t.id

abbrev pub has_hash : String → RefreshToken → Bool
has_hash hash t = str_eq t.token_hash hash

-- The primary key and `token_hash` are UNIQUE.
abbrev pub token_clashes : RefreshToken → RefreshToken → Bool
token_clashes new t = t.id == new.id || str_eq t.token_hash new.token_hash

unfoldable pub insert_token : RefreshToken → Action RefreshToken
insert_token token s =
    if is_none (find (token_clashes token) s.db.refresh_tokens)
    then (do modify (λ db. record db { refresh_tokens = token ∷ db.refresh_tokens }); pure token) s
    else raise integrity s

unfoldable pub create_token : Env → ℕ → String → ℕ → Action RefreshToken
create_token env user_id token_hash expires_at = do
  id ← uuid4 env
  insert_token (record {
    id = id;
    user_id = user_id;
    token_hash = token_hash;
    expires_at = expires_at;
    is_revoked = false;
  })

unfoldable pub get_by_hash : String → Db → Option RefreshToken
get_by_hash hash db = find (has_hash hash) db.refresh_tokens

unfoldable pub revoke : RefreshToken → Action (Unit {0})
revoke token = modify (λ db. record db {
  refresh_tokens = put token_id (record token { is_revoked = true }) db.refresh_tokens;
})

abbrev pub revoke_of : ℕ → RefreshToken → RefreshToken
revoke_of user_id t = if t.user_id == user_id then record t { is_revoked = true } else t

-- UPDATE of every token of the user that is not revoked.
unfoldable pub revoke_all_for_user : ℕ → Action (Unit {0})
revoke_all_for_user user_id =
    modify (λ db. record db { refresh_tokens = map (revoke_of user_id) db.refresh_tokens })
