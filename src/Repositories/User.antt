-- ===== src/Repositories/User.antt =====
-- app/repositories/user.py: the writes and lists of the table of users.
use paycore_backend.Base.{
  ℕ, String, Bool, true, false, not, ◌&&◌, ◌||◌, Option, none, some, List, ◌∷◌, ◌==◌, str_eq,
  is_text, is_none, if◌then◌else◌,
}
use paycore_backend.Base.Table.{find, put, select, take, drop, length}
use paycore_backend.Core.Errors.{integrity}
use paycore_backend.Models.Rows.{User, UserRole}
use paycore_backend.Database.{Db}
use paycore_backend.Session.{Env, Action, pure, raise, modify, uuid4, ◌>>=◌, ◌>>◌}

abbrev pub user_id : User → ℕ
user_id u = u.id

-- The phone numbers of two rows clash; NULL clashes with nothing.
abbrev pub same_phone : Option String → Option String → Bool
same_phone none o = false
same_phone (some p) o = is_text o p

-- The primary key, the email and the phone are UNIQUE, deleted rows included.
abbrev pub user_clashes : User → User → Bool
user_clashes new u = u.id == new.id || (str_eq u.email new.email || same_phone u.phone new.phone)

unfoldable pub insert_user : User → Action User
insert_user new s =
    if is_none (find (user_clashes new) s.db.users)
    then (do modify (λ db. record db { users = new ∷ db.users }); pure new) s
    else raise integrity s

abbrev pub new_user : Env → ℕ → String → String → String → Option String → UserRole → User
new_user env id email hashed_password full_name phone role = record {
  id = id;
  email = env.lower_strip email;
  phone = phone;
  hashed_password = hashed_password;
  full_name = full_name;
  role = role;
  kyc_tier = 0;
  is_active = true;
  is_email_verified = false;
  deleted_at = none;
}

unfoldable pub create_user : Env → String → String → String → Option String → UserRole → Action User
create_user env email hashed_password full_name phone role = do
  id ← uuid4 env
  insert_user (new_user env id email hashed_password full_name phone role)

unfoldable pub get_user_by_phone : String → Db → Option User
get_user_by_phone phone db = find (λ u. is_text u.phone phone && is_none u.deleted_at) db.users

unfoldable pub put_user : User → Action User
put_user u = do modify (λ db. record db { users = put user_id u db.users }); pure u

abbrev pub text_or : Option String → String → String
text_or none s = s
text_or (some t) s = t

abbrev pub or_else : Option String → Option String → Option String
or_else none o = o
or_else (some t) o = some t

-- The UPDATE of a phone that another row holds violates the UNIQUE constraint.
abbrev pub takes_phone : User → User → Bool
takes_phone new u = not (u.id == new.id) && same_phone u.phone new.phone

unfoldable pub update_user_profile : User → Option String → Option String → Action User
update_user_profile u full_name phone s =
    let new : User = record u {
      full_name = text_or full_name u.full_name;
      phone = or_else phone u.phone;
    } in
    if is_none (find (takes_phone new) s.db.users) then put_user new s else raise integrity s

unfoldable pub update_user_tier : User → ℕ → Action User
update_user_tier u tier = put_user (record u { kyc_tier = tier })

unfoldable pub set_user_active : User → Bool → Action User
set_user_active u active = put_user (record u { is_active = active })

unfoldable pub soft_delete_user : Env → User → Action User
soft_delete_user env u = put_user (record u { deleted_at = some env.now })

abbrev pub is_role : UserRole → UserRole → Bool
is_role UserRole.user UserRole.user = true
is_role UserRole.user _ = false
is_role UserRole.merchant UserRole.merchant = true
is_role UserRole.merchant _ = false
is_role UserRole.admin UserRole.admin = true
is_role UserRole.admin _ = false

abbrev pub role_matches : Option UserRole → User → Bool
role_matches none u = true
role_matches (some r) u = is_role u.role r

abbrev pub tier_matches : Option ℕ → User → Bool
tier_matches none u = true
tier_matches (some k) u = u.kyc_tier == k

abbrev pub is_listed : Option UserRole → Option ℕ → User → Bool
is_listed role tier u = is_none u.deleted_at && (role_matches role u && tier_matches tier u)

-- Newest first, as the table is kept.
unfoldable pub list_users : ℕ → ℕ → Option UserRole → Option ℕ → Db → List User
list_users limit offset role tier db =
    take limit (drop offset (select (is_listed role tier) db.users))

unfoldable pub count_users : Option UserRole → Option ℕ → Db → ℕ
count_users role tier db = length (select (is_listed role tier) db.users)
