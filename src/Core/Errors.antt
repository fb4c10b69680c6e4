-- ===== src/Core/Errors.antt =====
-- app/core/exceptions.py: the exception classes, each a constructor, with the status and the error
-- code that the HTTP layer sends. The human-readable messages are left out. The constructors from
-- `integrity` on are exceptions of libraries (SQLAlchemy, Celery) that pass through the services.
use paycore_backend.Base.{ℕ, String, Bool, true, false, ◌≡◌, refl, ◌⊎◌, inl, inr}

-- The `resource` argument of `NotFoundError`.
pub data Resource : Type 0 where
  recipient wallet transaction merchant merchant_profile bank_account kyc_submission user
        withdrawal :
      Resource

pub data AppError : Type 0 where
  not_found : Resource → AppError
  conflict : String → AppError
  unauthorized forbidden : AppError
  validation : String → AppError
  insufficient_balance kyc_tier daily_limit duplicate_transfer external_service : AppError
  integrity multiple_results broker_unavailable index_error type_error attribute_error : AppError

not_found_code : Resource → String
not_found_code recipient = "RECIPIENT_NOT_FOUND"
not_found_code wallet = "WALLET_NOT_FOUND"
not_found_code transaction = "TRANSACTION_NOT_FOUND"
not_found_code merchant = "MERCHANT_NOT_FOUND"
not_found_code merchant_profile = "MERCHANT_PROFILE_NOT_FOUND"
not_found_code bank_account = "BANK_ACCOUNT_NOT_FOUND"
not_found_code kyc_submission = "KYC_SUBMISSION_NOT_FOUND"
not_found_code user = "USER_NOT_FOUND"
not_found_code withdrawal = "WITHDRAWAL_NOT_FOUND"

-- `status_code`; what is no `AppError` is answered by the 500 of the application's last handler.
unfoldable pub status_code : AppError → ℕ
status_code (not_found r) = 404
status_code (conflict c) = 409
status_code unauthorized = 401
status_code forbidden = 403
status_code (validation c) = 422
status_code insufficient_balance = 422
status_code kyc_tier = 403
status_code daily_limit = 422
status_code duplicate_transfer = 429
status_code external_service = 503
status_code _ = 500

unfoldable pub error_code : AppError → String
unfolding not_found_code
error_code (not_found r) = not_found_code r
error_code (conflict c) = c
error_code unauthorized = "UNAUTHORIZED"
error_code forbidden = "FORBIDDEN"
error_code (validation c) = c
error_code insufficient_balance = "INSUFFICIENT_BALANCE"
error_code kyc_tier = "KYC_TIER_INSUFFICIENT"
error_code daily_limit = "DAILY_LIMIT_EXCEEDED"
error_code duplicate_transfer = "DUPLICATE_TRANSFER"
error_code external_service = "EXTERNAL_SERVICE_ERROR"
error_code _ = "INTERNAL_SERVER_ERROR"

-- The `except IntegrityError` clauses catch this exception alone.
abbrev pub is_integrity : AppError → Bool
is_integrity integrity = true
is_integrity _ = false

-- What a call that may raise returns.
pub data Result {ℓ} (A : Type ℓ) : Type ℓ where
  ok : A → Result A
  err : AppError → Result A

pub Result-cases {ℓ} :
    {A : Type ℓ} (r : Result A) → ((e : AppError) × (r ≡ err e)) ⊎ ((a : A) × (r ≡ ok a))
Result-cases (ok a) = inr (a, refl)
Result-cases (err e) = inl (e, refl)
