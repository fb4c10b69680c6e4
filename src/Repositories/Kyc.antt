-- ===== src/Repositories/Kyc.antt =====
-- app/repositories/kyc.py.
use paycore_backend.Base.{
  ℕ, String, Bool, true, false, not, ◌&&◌, Option, none, some, List, ◌∷◌, ◌==◌, is_none,
  if◌then◌else◌,
}
use paycore_backend.Base.Table.{find, get, put, select, take, drop, length, oldest_first}
use paycore_backend.Core.Errors.{integrity}
use paycore_backend.Models.Access.{KycSubmission, KycStatus, pending, approved, rejected}
use paycore_backend.Database.{Db}
use paycore_backend.Session.{Action, pure, raise, modify, ◌>>◌}

abbrev pub submission_id : KycSubmission → ℕ
submission_id k = k.id

abbrev pub is_rejected : KycStatus → Bool
is_rejected rejected = true
is_rejected _ = false

-- The primary key is UNIQUE.
unfoldable pub insert_submission : KycSubmission → Action KycSubmission
insert_submission new s =
    if is_none (get submission_id new.id s.db.kyc_submissions)
    then (do modify (λ db. record db { kyc_submissions = new ∷ db.kyc_submissions }); pure new) s
    else raise integrity s

abbrev pub new_submission : ℕ → ℕ → ℕ → String → KycSubmission
new_submission id user_id requested_tier document_key = record {
  id = id;
  user_id = user_id;
  requested_tier = requested_tier;
  status = pending;
  document_key = document_key;
  reviewer_id = none;
  rejection_reason = none;
  reviewed_at = none;
}

unfoldable pub create_submission : ℕ → ℕ → ℕ → String → Action KycSubmission
create_submission id user_id requested_tier document_key =
    insert_submission (new_submission id user_id requested_tier document_key)

unfoldable pub get_submission_by_id : ℕ → Db → Option KycSubmission
get_submission_by_id i db = get submission_id i db.kyc_submissions

-- The table is kept newest first.
unfoldable pub get_latest_for_user : ℕ → Db → Option KycSubmission
get_latest_for_user u db = find (λ k. k.user_id == u) db.kyc_submissions

-- A submission of the user for the tier that is not REJECTED.
abbrev pub is_active_for : ℕ → ℕ → KycSubmission → Bool
is_active_for u tier k = k.user_id == u && (k.requested_tier == tier && not (is_rejected k.status))

unfoldable pub get_active_for_tier : ℕ → ℕ → Db → Option KycSubmission
get_active_for_tier u tier db = find (is_active_for u tier) db.kyc_submissions

unfoldable pub put_submission : KycSubmission → Action KycSubmission
put_submission k = do
  modify (λ db. record db { kyc_submissions = put submission_id k db.kyc_submissions })
  pure k

abbrev pub is_kyc_status : KycStatus → KycStatus → Bool
is_kyc_status pending pending = true
is_kyc_status pending _ = false
is_kyc_status approved approved = true
is_kyc_status approved _ = false
is_kyc_status rejected rejected = true
is_kyc_status rejected _ = false

abbrev pub status_matches : Option KycStatus → KycSubmission → Bool
status_matches none k = true
status_matches (some st) k = is_kyc_status k.status st

-- ORDER BY created_at ASC, and the number of all rows that match.
unfoldable pub list_by_status : Option KycStatus → ℕ → ℕ → Db → List KycSubmission × ℕ
list_by_status status limit offset db =
    let rows = select (status_matches status) db.kyc_submissions in
    (take limit (drop offset (oldest_first rows)), length rows)
