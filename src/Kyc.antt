-- ===== src/Kyc.antt =====
-- Identity checks (Services/Kyc): what each operation commits, and how submissions and tiers go
-- together.
pub mod Outcomes
pub mod Orderly
pub mod Reviews
pub mod Final
use paycore_backend.Base.{ℕ, ◌+◌, ◌≡◌, ◌≢◌, Option, none, some, String, ◌∷◌}
use paycore_backend.Base.Table.{get, put}
use paycore_backend.Core.Errors.{AppError, Result, ok, err}
use paycore_backend.Models.Rows.{User, AuditLog}
use paycore_backend.Models.Access.{KycSubmission, KycStatus, pending}
use paycore_backend.Database.{Db}
use paycore_backend.Session.{Env, Session}
use paycore_backend.Repositories.Kyc.{submission_id, get_active_for_tier}
use paycore_backend.Repositories.User.{user_id}
use paycore_backend.Repositories.People.{get_user_by_id}

-- The two tables that the operations change.
abbrev pub SameKyc : Db → Db → Type 0
SameKyc db db' = (db'.kyc_submissions ≡ db.kyc_submissions) × (db'.users ≡ db.users)

-- What a submission comes to, seen from the committed tables.
pub data Submits (u : User) (tier : ℕ) (db : Db) : Result KycSubmission × Session → Type 0 where
  refused : (e : AppError) (s : Session) → SameKyc db s.committed → Submits u tier db (err e, s)
  submitted :
      (k : KycSubmission) (s : Session)
      → k.status ≡ pending
      → k.user_id ≡ u.id
      → k.requested_tier ≡ tier
      → u.kyc_tier + 1 ≡ tier
      → get_active_for_tier u.id tier db ≡ none
      → get submission_id k.id db.kyc_submissions ≡ none
      → s.committed.kyc_submissions ≡ k ∷ db.kyc_submissions
      → s.committed.users ≡ db.users
      → Submits u tier db (ok k, s)

-- What the review of a submission comes to.
pub data Approves (env : Env) (id : ℕ) (reviewer : User) (db : Db)
    : Result KycSubmission × Session → Type 0 where
  refused :
      (e : AppError) (s : Session) → SameKyc db s.committed → Approves env id reviewer db (err e, s)
  approved :
      (k : KycSubmission) (u : User) (s : Session)
      → get submission_id id db.kyc_submissions ≡ some k
      → k.status ≡ pending
      → reviewer.id ≢ k.user_id
      → get_user_by_id k.user_id db ≡ some u
      → s.committed.kyc_submissions
        ≡ put submission_id
            (record k {
              status = KycStatus.approved;
              reviewer_id = some reviewer.id;
              reviewed_at = some env.now;
            })
            db.kyc_submissions
      → s.committed.users ≡ put user_id (record u { kyc_tier = k.requested_tier }) db.users
      → Approves env id reviewer db (
        ok (record k {
          status = KycStatus.approved;
          reviewer_id = some reviewer.id;
          reviewed_at = some env.now;
        }),
        s,
      )

pub data Rejects (env : Env) (id : ℕ) (reviewer : User) (reason : String) (db : Db)
    : Result KycSubmission × Session → Type 0 where
  refused :
      (e : AppError) (s : Session)
      → SameKyc db s.committed
      → Rejects env id reviewer reason db (err e, s)
  rejected :
      (k : KycSubmission) (s : Session)
      → get submission_id id db.kyc_submissions ≡ some k
      → k.status ≡ pending
      → reviewer.id ≢ k.user_id
      → s.committed.kyc_submissions
        ≡ put submission_id
            (record k {
              status = KycStatus.rejected;
              reviewer_id = some reviewer.id;
              rejection_reason = some reason;
              reviewed_at = some env.now;
            })
            db.kyc_submissions
      → s.committed.users ≡ db.users
      → Rejects env id reviewer reason db (
        ok (record k {
          status = KycStatus.rejected;
          reviewer_id = some reviewer.id;
          rejection_reason = some reason;
          reviewed_at = some env.now;
        }),
        s,
      )
