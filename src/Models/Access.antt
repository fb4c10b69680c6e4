-- ===== src/Models/Access.antt =====
-- app/models/refresh_token.py and kyc_submission.py. Of a refresh token only the hash is stored; the
-- rows of KYC submissions are never deleted.
use paycore_backend.Base.{ℕ, String, Bool, Option}

pub record RefreshToken : Type 0 where
  pub id : ℕ
  pub user_id : ℕ
  pub token_hash : String
  pub expires_at : ℕ
  pub is_revoked : Bool

pub data KycStatus : Type 0 where
  pending approved rejected : KycStatus

pub record KycSubmission : Type 0 where
  pub id : ℕ
  pub user_id : ℕ
  pub requested_tier : ℕ
  pub status : KycStatus
  pub document_key : String
  pub reviewer_id : Option ℕ
  pub rejection_reason : Option String
  pub reviewed_at : Option ℕ
