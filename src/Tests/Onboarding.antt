-- ===== src/Tests/Onboarding.antt =====
-- The theorems on identity checks and bank accounts at concrete inputs.
use paycore_backend.Base.{◌+◌, ◌≡◌, some, [], ◌∷◌, refl}
use paycore_backend.Base.Table.{get, find, put}
use paycore_backend.Core.Errors.{ok, err, conflict}
use paycore_backend.Models.Rows.{User}
use paycore_backend.Session.{Session, request}
use paycore_backend.Repositories.Kyc.{submission_id, get_submission_by_id, put_submission}
use paycore_backend.Repositories.People.{get_user_by_id}
use paycore_backend.Repositories.User.{user_id, update_user_tier, put_user}
use paycore_backend.Services.Audit.{log}
use paycore_backend.Services.User.{update_kyc_tier, get_profile}
use paycore_backend.Services.Kyc.{
  submit_kyc, approve_kyc, reject_kyc, approvable, get_submission, approved_by,
}
use paycore_backend.Services.BankAccounts.{add_bank_account, remove_bank_account}
use paycore_backend.Kyc.{Submits, Approves, Rejects}
use paycore_backend.Kyc.Outcomes.{submit_kyc-Submits, approve_kyc-Approves, reject_kyc-Rejects}
use paycore_backend.Kyc.Reviews.{
  Orderly, begun, approves, rejects, Steps-Orderly, approve_kyc-raises_one,
}
use paycore_backend.Kyc.Final.{reviews-final}
use paycore_backend.Accounts.Default.{IsOneDefault}
use paycore_backend.Accounts.Steps.{begun as no_request, adds, removes, Steps-IsOneDefault}
use paycore_backend.Tests.Bank.{env, alice, bob}
use paycore_backend.Tests.Desk.{desk, desk_db, carol, submission, desk-Orderly, desk-IsOneDefault}

submit_kyc-Submits_example :
    Submits carol 1 desk.committed (request (submit_kyc env carol 1 (0x25 ∷ []) "passport") desk)
submit_kyc-Submits_example = submit_kyc-Submits env carol 1 (0x25 ∷ []) "passport" desk

approve_kyc-Approves_example :
    Approves env 51 alice desk.committed (request (approve_kyc env 51 alice) desk)
approve_kyc-Approves_example = approve_kyc-Approves env 51 alice desk

reject_kyc-Rejects_example :
    Rejects env 51 alice "blurred" desk.committed (request (reject_kyc env 51 alice "blurred") desk)
reject_kyc-Rejects_example = reject_kyc-Rejects env 51 alice "blurred" desk

abbrev reviewed : Session
reviewed = (request (approve_kyc env 51 alice) desk).1

Steps-Orderly_example : Orderly (request (reject_kyc env 51 alice "late") reviewed).1.committed
Steps-Orderly_example =
    Steps-Orderly desk-Orderly
      (rejects env 51 alice "late" reviewed (approves env 51 alice desk begun))

passes : (request (approve_kyc env 51 alice) desk).0 ≡ ok (approved_by env 1 submission)
unfolding approve_kyc approvable get_submission get_submission_by_id get put_submission put
    update_kyc_tier get_profile get_user_by_id find update_user_tier put_user log
passes = refl

approve_kyc-raises_one_example :
    (u : User) × (get_user_by_id 3 desk_db ≡ some u)
    × (reviewed.committed.users
        ≡ put user_id (record u { kyc_tier = u.kyc_tier + 1 }) desk_db.users)
approve_kyc-raises_one_example = approve_kyc-raises_one env 51 alice desk desk-Orderly passes

on_file :
    get submission_id 51 reviewed.committed.kyc_submissions ≡ some (approved_by env 1 submission)
unfolding approve_kyc approvable get_submission get_submission_by_id get put_submission put
    update_kyc_tier get_profile get_user_by_id find update_user_tier put_user log
on_file = refl

reviews-final_example :
    (get submission_id 51 reviewed.committed.kyc_submissions ≡ some (approved_by env 1 submission))
    × (request (approve_kyc env 51 bob) reviewed
        ≡ (err (conflict "KYC_ALREADY_APPROVED"), record reviewed { db = reviewed.committed }))
    × (request (reject_kyc env 51 bob "no") reviewed ≡ (
      err (conflict "KYC_INVALID_STATUS_FOR_REJECTION"),
      record reviewed { db = reviewed.committed },
    ))
reviews-final_example =
    reviews-final env 51 bob "no" (approved_by env 1 submission) reviewed reviewed on_file
      (λ e. absurd (cc)) begun

abbrev two_accounts : Session
two_accounts = (request (add_bank_account env bob "Bob" "1" "1" "Bank") desk).1

Steps-IsOneDefault_example :
    IsOneDefault (request (remove_bank_account env bob 31) two_accounts).1.committed.bank_accounts
Steps-IsOneDefault_example =
    Steps-IsOneDefault desk-IsOneDefault
      (removes env bob 31 two_accounts (adds env bob "Bob" "1" "1" "Bank" desk no_request))
