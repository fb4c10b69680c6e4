-- ===== src/Core/Deps.antt =====
-- app/core/deps.py: who is calling. The token is the bearer credential of the request.
use paycore_backend.Base.{String, Bool, false, not, ◌||◌, List, [], ◌∷◌, str_eq}
use paycore_backend.Core.Errors.{unauthorized, forbidden}
use paycore_backend.Core.Security.{decode_token, role_value}
use paycore_backend.Models.Rows.{User}
use paycore_backend.Database.{Query, answer, ask, or_raise, raise_if, ◌>>=◌, ◌>>◌}
use paycore_backend.Session.{Env}
use paycore_backend.Repositories.People.{get_user_by_id}

-- A token that is forged or expired, of another type, or without a user raises.
unfoldable pub get_current_user : Env → String → Query User
get_current_user env token = do
  payload ← or_raise (decode_token env token) unauthorized
  raise_if (not (str_eq payload.type "access")) unauthorized
  user_id ← or_raise payload.sub unauthorized
  found ← ask (get_user_by_id user_id)
  user ← or_raise found unauthorized
  raise_if (not user.is_active) forbidden
  answer user

abbrev pub is_one_of : String → List String → Bool
is_one_of role [] = false
is_one_of role (r ∷ roles) = str_eq role r || is_one_of role roles

unfoldable pub require_role : Env → List String → String → Query User
require_role env roles token = do
  user ← get_current_user env token
  raise_if (not (is_one_of (role_value user.role) roles)) forbidden
  answer user
