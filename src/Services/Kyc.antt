-- ===== src/Services/Kyc.antt =====
-- app/services/kyc.py. The document itself goes to S3; `submission_key` is where.
use Prim.Native.Char.{code}
use Prim.Native.String as Text
use paycore_backend.Base.{
  ℕ, ◌+◌, String, Bool, false, not, ◌&&◌, Option, none, some, List, ◌==◌, ltb, str_eq, ◌||◌,
  if◌then◌else◌,
}
use paycore_backend.Base.Table.{length}
use paycore_backend.Core.Errors.{err, validation, conflict, forbidden, not_found, kyc_submission}
use paycore_backend.Models.Rows.{User, ActorType}
use paycore_backend.Models.Access.{KycSubmission, KycStatus, pending, approved, rejected}
use paycore_backend.Database.{Query, answer, ask, or_raise, raise_if}
use paycore_backend.Database as Database
use paycore_backend.Session.{Env, Action, pure, query, commit, uuid4, ◌>>=◌, ◌>>◌}
use paycore_backend.Integrations.Storage.{
  max_file_size, detect_mime_type, upload_file, get_presigned_url,
}
use paycore_backend.Repositories.Kyc.{
  create_submission, get_submission_by_id, get_latest_for_user, get_active_for_tier, put_submission,
}
use paycore_backend.Services.User.{update_kyc_tier}
use paycore_backend.Services.Audit

-- `mime in _ALLOWED_MIME`
abbrev pub is_allowed_mime : Option String → Bool
is_allowed_mime none = false
is_allowed_mime (some mime) =
    str_eq mime "image/jpeg" || (str_eq mime "image/png" || str_eq mime "application/pdf")

-- `filename.replace("/", "_")`
unfoldable pub replace_slashes : String → String
replace_slashes Text.[] = ""
replace_slashes (Text.◌∷◌ c s) =
    let rest = replace_slashes s in if code c == 47 then Text.◌++◌ "_" rest else Text.◌∷◌ c rest

-- `.replace("..", "_")`, left to right.
unfoldable pub replace_dots : String → String
replace_dots Text.[] = ""
replace_dots (Text.◌∷◌ c Text.[]) = Text.◌∷◌ c ""
replace_dots (Text.◌∷◌ c (Text.◌∷◌ d s)) =
    let after_two = replace_dots s in
    let after_one = replace_dots (Text.◌∷◌ d s) in
    if code c == 46 && code d == 46 then Text.◌++◌ "_" after_two else Text.◌∷◌ c after_one

unfoldable pub submission_key : Env → ℕ → ℕ → String → String
submission_key env user_id submission_id filename = Text.◌++◌ "kyc/" (
    Text.◌++◌ (env.uuid_text user_id) (
      Text.◌++◌ "/" (
        Text.◌++◌ (env.uuid_text submission_id)
          (Text.◌++◌ "/" (replace_dots (replace_slashes filename))))))

-- An active submission for the tier is a conflict; its status says which.
abbrev pub conflict_of : KycStatus → String
conflict_of pending = "KYC_SUBMISSION_PENDING"
conflict_of _ = "KYC_ALREADY_APPROVED"

unfoldable pub refuse_existing : Option KycSubmission → Query (Unit {0})
refuse_existing none = answer tt
refuse_existing (some existing) = λ db. err (conflict (conflict_of existing.status))

-- `user.kyc_tier != target_tier - 1`, where Python's subtraction is signed.
unfoldable pub check_submission : User → ℕ → List ℕ → Query (Unit {0})
check_submission u target_tier file_bytes =
    Database.◌>>◌ (raise_if (ltb max_file_size (length file_bytes)) (validation "FILE_TOO_LARGE")) (
      Database.◌>>◌
        (raise_if (not (is_allowed_mime (detect_mime_type file_bytes)))
          (validation "INVALID_FILE_TYPE"))
        (Database.◌>>◌ (raise_if (not (u.kyc_tier + 1 == target_tier)) (validation "KYC_TIER_SKIP"))
          (Database.◌>>=◌ (ask (get_active_for_tier u.id target_tier)) refuse_existing)))

unfoldable pub submit_kyc : Env → User → ℕ → List ℕ → String → Action KycSubmission
submit_kyc env u target_tier file_bytes filename = do
  query (check_submission u target_tier file_bytes)
  submission_id ← uuid4 env
  let key = submission_key env u.id submission_id filename
  upload_file env key
  submission ← create_submission submission_id u.id target_tier key
  commit
  Audit.log env (some u.id) ActorType.user "kyc.submitted" "kyc_submission" submission.id
  pure submission

unfoldable pub get_my_submission : ℕ → Query KycSubmission
get_my_submission user_id =
    Database.◌>>=◌ (ask (get_latest_for_user user_id))
      (λ found. or_raise found (not_found kyc_submission))

unfoldable pub get_submission : ℕ → Query KycSubmission
get_submission submission_id =
    Database.◌>>=◌ (ask (get_submission_by_id submission_id))
      (λ found. or_raise found (not_found kyc_submission))

abbrev pub refuse_approval : KycStatus → Query (Unit {0})
refuse_approval approved = λ db. err (conflict "KYC_ALREADY_APPROVED")
refuse_approval rejected = λ db. err (conflict "KYC_ALREADY_REJECTED")
refuse_approval pending = answer tt

unfoldable pub approvable : User → ℕ → Query KycSubmission
approvable reviewer submission_id = Database.◌>>=◌ (get_submission submission_id) (λ sub.
    Database.◌>>◌ (refuse_approval sub.status)
      (Database.◌>>◌ (raise_if (reviewer.id == sub.user_id) forbidden) (answer sub)))

abbrev pub approved_by : Env → ℕ → KycSubmission → KycSubmission
approved_by env reviewer_id sub = record sub {
  status = approved;
  reviewer_id = some reviewer_id;
  reviewed_at = some env.now;
}

unfoldable pub approve_kyc : Env → ℕ → User → Action KycSubmission
approve_kyc env submission_id reviewer = do
  sub ← query (approvable reviewer submission_id)
  reviewed ← put_submission (approved_by env reviewer.id sub)
  update_kyc_tier sub.user_id sub.requested_tier
  commit
  Audit.log env (some reviewer.id) ActorType.admin "kyc.approved" "kyc_submission" sub.id
  pure reviewed

abbrev pub refuse_rejection : KycStatus → Query (Unit {0})
refuse_rejection pending = answer tt
refuse_rejection _ = λ db. err (conflict "KYC_INVALID_STATUS_FOR_REJECTION")

unfoldable pub rejectable : User → ℕ → Query KycSubmission
rejectable reviewer submission_id = Database.◌>>=◌ (get_submission submission_id) (λ sub.
    Database.◌>>◌ (refuse_rejection sub.status)
      (Database.◌>>◌ (raise_if (reviewer.id == sub.user_id) forbidden) (answer sub)))

abbrev pub rejected_by : Env → ℕ → String → KycSubmission → KycSubmission
rejected_by env reviewer_id reason sub = record sub {
  status = rejected;
  reviewer_id = some reviewer_id;
  rejection_reason = some reason;
  reviewed_at = some env.now;
}

unfoldable pub reject_kyc : Env → ℕ → User → String → Action KycSubmission
reject_kyc env submission_id reviewer reason = do
  sub ← query (rejectable reviewer submission_id)
  reviewed ← put_submission (rejected_by env reviewer.id reason sub)
  commit
  Audit.log env (some reviewer.id) ActorType.admin "kyc.rejected" "kyc_submission" sub.id
  pure reviewed

unfoldable pub get_presigned_doc_url : Env → KycSubmission → Query String
get_presigned_doc_url env submission = get_presigned_url env submission.document_key
