-- ===== src/Services/User.antt =====
-- app/services/user.py.
use paycore_backend.Base.{ℕ, String, Bool, false, not, ◌&&◌, Option, none, some, ◌==◌, is_text}
use paycore_backend.Core.Errors.{not_found, user, conflict}
use paycore_backend.Models.Rows.{User}
use paycore_backend.Database.{Query, answer, ask, or_raise, raise_if, ◌>>=◌, ◌>>◌, Db}
use paycore_backend.Session.{Env, Action, query}
use paycore_backend.Session as Session
use paycore_backend.Repositories.People.{get_user_by_id}
use paycore_backend.Repositories.User.{get_user_by_phone, update_user_profile, update_user_tier}

unfoldable pub get_profile : ℕ → Query User
get_profile user_id = do found ← ask (get_user_by_id user_id); or_raise found (not_found user)

abbrev pub is_other : ℕ → Option User → Bool
is_other i none = false
is_other i (some u) = not (u.id == i)

-- The phone that is given is new to the user and another user's.
abbrev pub is_taken : User → Option String → Db → Bool
is_taken u none db = false
is_taken u (some phone) db =
    not (is_text u.phone phone) && is_other u.id (get_user_by_phone phone db)

unfoldable pub profile_to_update : ℕ → Option String → Query User
profile_to_update user_id phone = do
  u ← get_profile user_id
  taken ← ask (is_taken u phone)
  raise_if taken (conflict "PHONE_CONFLICT")
  answer u

unfoldable pub update_profile : ℕ → Option String → Option String → Action User
update_profile user_id full_name phone s =
    Session.resume (query (profile_to_update user_id phone) s)
      (λ u. update_user_profile u full_name phone)

unfoldable pub update_kyc_tier : ℕ → ℕ → Action User
update_kyc_tier user_id tier s =
    Session.resume (query (get_profile user_id) s) (λ u. update_user_tier u tier)
