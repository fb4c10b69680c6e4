-- ===== src/Core/Config.antt =====
-- app/core/config.py: the default settings that the services read. Amounts of money are whole kobo
-- in the whole development (1 NGN = 100 kobo), so the limits, given in NGN, are multiplied out.
use paycore_backend.Base.{ℕ, ◌*◌}

abbrev pub kobo_per_naira : ℕ
kobo_per_naira = 100

abbrev pub kyc_tier1_daily_limit : ℕ
kyc_tier1_daily_limit = 50_000 * kobo_per_naira

abbrev pub kyc_tier2_daily_limit : ℕ
kyc_tier2_daily_limit = 500_000 * kobo_per_naira

abbrev pub kyc_tier1_single_limit : ℕ
kyc_tier1_single_limit = 50_000 * kobo_per_naira

abbrev pub kyc_tier2_single_limit : ℕ
kyc_tier2_single_limit = 500_000 * kobo_per_naira

abbrev pub fraud_duplicate_window_seconds : ℕ
fraud_duplicate_window_seconds = 60

abbrev pub fraud_rapid_transfer_count : ℕ
fraud_rapid_transfer_count = 5

abbrev pub fraud_rapid_transfer_window_seconds : ℕ
fraud_rapid_transfer_window_seconds = 600

abbrev pub fraud_merchant_payment_flag_threshold : ℕ
fraud_merchant_payment_flag_threshold = 100_000 * kobo_per_naira

abbrev pub access_token_expire_minutes : ℕ
access_token_expire_minutes = 30

abbrev pub refresh_token_expire_days : ℕ
refresh_token_expire_days = 1
