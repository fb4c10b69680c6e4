-- ===== src/Access/Profile.antt =====
-- Profile changes (Services/User) as the HTTP layer calls them: the method flushes and the request's
-- session ends without COMMIT.
use paycore_backend.Base.{ℕ, ◌≡◌, String, Option, refl, Bool-cases, inl, inr, is_none}
use paycore_backend.Base.Table.{find}
use paycore_backend.Models.Rows.{User}
use paycore_backend.Session.{Session, query, request}
use paycore_backend.Repositories.User.{takes_phone, put_user, update_user_profile, text_or, or_else}
use paycore_backend.Services.User.{profile_to_update, update_profile}
use paycore_backend.Keeping.{resume-keeps}

-- What outlives the session is what was there.
abbrev SameOutside : Session → Session → Type 0
SameOutside s s' = record s' { db = s'.committed } ≡ record s { db = s.committed }

update_user_profile-keeps :
    (u : User) (full_name phone : Option String) (s : Session)
    → SameOutside s (update_user_profile u full_name phone s).1
unfolding update_user_profile put_user
update_user_profile-keeps u full_name phone s =
    let new : User = record u {
      full_name = text_or full_name u.full_name;
      phone = or_else phone u.phone;
    } in
    elim (Bool-cases (is_none (find (takes_phone new) s.db.users))) [
      | inl e ↦ rw e refl
      | inr e ↦ rw e refl
    ]

-- A request that updates a profile leaves nothing behind, whatever it answers: the tables that are
-- committed stay as they were.
pub update_profile-lost :
    (user_id : ℕ) (full_name phone : Option String) (s : Session)
    → (request (update_profile user_id full_name phone) s).1 ≡ record s { db = s.committed }
unfolding update_profile
update_profile-lost user_id full_name phone s =
    let s0 = record s { db = s.committed } in
    resume-keeps (SameOutside s) (query (profile_to_update user_id phone) s0) _ refl
      λ u _ _. (update_user_profile-keeps u full_name phone s0)
