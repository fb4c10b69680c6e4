-- ===== src/Services/Fraud.antt =====
-- app/services/fraud.py. The checks read and may raise; the flags enqueue a task after the commit.
-- The text of a flag's reason is left out.
use paycore_backend.Base.{ℕ, ◌+◌, ◌-◌, ◌%◌, ◌&&◌, ltb, ◌==◌, if◌then◌else◌}
use paycore_backend.Core.Errors.{kyc_tier, daily_limit, duplicate_transfer}
use paycore_backend.Core.Config.{
  kyc_tier1_daily_limit, kyc_tier2_daily_limit, kyc_tier1_single_limit, kyc_tier2_single_limit,
  fraud_duplicate_window_seconds, fraud_rapid_transfer_count, fraud_rapid_transfer_window_seconds,
  fraud_merchant_payment_flag_threshold,
}
use paycore_backend.Models.Transaction.{TransactionType, transfer, merchant_payment, withdrawal}
use paycore_backend.Models.Rows.{User, Wallet}
use paycore_backend.Database.{Query, ask, raise_if, ◌>>=◌, ◌>>◌}
use paycore_backend.Repositories.Fraud.{
  get_daily_outgoing_sum, count_recent_transfers, count_distinct_recipients_recently,
}
use paycore_backend.Session.{Env, Action, pure, delay, flag_transaction_risk}

-- Midnight (UTC) of the current day.
unfoldable pub today_start : Env → ℕ
today_start env = env.now - env.now % 86400

abbrev pub single_limit : ℕ → ℕ
single_limit tier = if tier == 1 then kyc_tier1_single_limit else kyc_tier2_single_limit

abbrev pub tier_daily_limit : ℕ → ℕ
tier_daily_limit tier = if tier == 1 then kyc_tier1_daily_limit else kyc_tier2_daily_limit

unfoldable pub enforce_kyc_single_limit : ℕ → ℕ → Query (Unit {0})
enforce_kyc_single_limit tier amount = do
  raise_if (tier == 0) kyc_tier
  raise_if (ltb (single_limit tier) amount) kyc_tier

unfoldable pub enforce_daily_limit : Env → ℕ → ℕ → ℕ → TransactionType → Query (Unit {0})
enforce_daily_limit env user_id tier amount type = do
  daily_sum ← ask (get_daily_outgoing_sum user_id type (today_start env))
  raise_if (ltb (tier_daily_limit tier) (daily_sum + amount)) daily_limit

unfoldable pub enforce_no_duplicate_transfer : Env → ℕ → ℕ → ℕ → Query (Unit {0})
enforce_no_duplicate_transfer env source destination amount = do
  count ←
      ask (
        count_recent_transfers source destination amount (env.now - fraud_duplicate_window_seconds))
  raise_if (ltb 0 count) duplicate_transfer

unfoldable pub check_transfer : Env → User → Wallet → ℕ → ℕ → Query (Unit {0})
check_transfer env sender sender_wallet recipient_wallet_id amount = do
  enforce_kyc_single_limit sender.kyc_tier amount
  enforce_daily_limit env sender.id sender.kyc_tier amount transfer
  enforce_no_duplicate_transfer env sender_wallet.id recipient_wallet_id amount

unfoldable pub check_merchant_payment : Env → User → ℕ → Query (Unit {0})
check_merchant_payment env payer amount = do
  enforce_kyc_single_limit payer.kyc_tier amount
  enforce_daily_limit env payer.id payer.kyc_tier amount merchant_payment

-- Withdrawals need KYC tier 2.
unfoldable pub check_withdrawal : Env → User → ℕ → Query (Unit {0})
check_withdrawal env owner amount = do
  raise_if (ltb owner.kyc_tier 2) kyc_tier
  enforce_kyc_single_limit owner.kyc_tier amount
  enforce_daily_limit env owner.id owner.kyc_tier amount withdrawal

unfoldable pub maybe_flag_merchant_payment : Env → ℕ → User → ℕ → Action (Unit {0})
maybe_flag_merchant_payment env transaction_id payer amount =
    if payer.kyc_tier == 1 && ltb fraud_merchant_payment_flag_threshold amount
    then delay env (flag_transaction_risk transaction_id)
    else pure tt

unfoldable pub maybe_flag_rapid_transfers : Env → ℕ → ℕ → Action (Unit {0})
maybe_flag_rapid_transfers env transaction_id sender_wallet_id s =
    let since = env.now - fraud_rapid_transfer_window_seconds in
    let distinct = count_distinct_recipients_recently sender_wallet_id since s.db in
    if ltb fraud_rapid_transfer_count distinct
    then delay env (flag_transaction_risk transaction_id) s
    else pure tt s
