-- ===== src/Services/WalletFunding.antt =====
-- app/services/wallet_funding.py: starting a funding at Paystack.
use Prim.Native.String.{◌++◌}
use paycore_backend.Base.{ℕ, ◌*◌, String, false, Option, none, some, ltb}
use paycore_backend.Core.Config.{kobo_per_naira}
use paycore_backend.Core.Errors.{forbidden, validation, external_service}
use paycore_backend.Models.Transaction.{
  Transaction, ExtraData, payment_url, bank_account_id, funding, pending,
}
use paycore_backend.Models.Rows.{User, Wallet}
use paycore_backend.Database.{Query, answer, or_raise_unless, raise_if, ask}
use paycore_backend.Database as Database
use paycore_backend.Session.{Env, Action, pure, raise, query, uuid4, commit, ◌>>=◌, ◌>>◌}
use paycore_backend.Repositories.Wallet.{get_by_user_id}
use paycore_backend.Repositories.Transaction.{create, get_by_key_if_given}

-- MINIMUM_FUNDING_NGN, in kobo.
abbrev pub minimum_funding : ℕ
minimum_funding = 100 * kobo_per_naira

pub record WalletFundingOut : Type 0 where
  pub transaction_id : ℕ
  pub reference : String
  pub payment_url : String
  pub amount : ℕ
  pub currency : String

abbrev pub or_default : Option String → String → String
or_default none d = d
or_default (some a) d = a

abbrev pub payment_url_of : Option ExtraData → String
payment_url_of none = ""
payment_url_of (some (bank_account_id i)) = ""
payment_url_of (some (payment_url url)) = url

abbrev pub funding_out : Transaction → WalletFundingOut
funding_out txn = record {
  transaction_id = txn.id;
  reference = txn.reference;
  payment_url = payment_url_of txn.extra_data;
  amount = txn.amount;
  currency = txn.currency;
}

-- Steps 1 and 2: an active wallet and the minimum amount.
unfoldable pub funding_wallet : User → ℕ → Query Wallet
funding_wallet payer amount db =
    Database.◌>>=◌ (or_raise_unless (λ w. w.is_active) (get_by_user_id payer.id db) forbidden)
      (λ wallet.
        Database.◌>>◌ (raise_if (ltb amount minimum_funding) (validation "BELOW_MINIMUM_AMOUNT"))
          (answer wallet))
      db

unfoldable pub funding_record :
    Env → ℕ → String → String → String → User → Wallet → ℕ → Option String → Transaction
funding_record env id reference url provider_reference payer wallet amount idempotency_key =
    record {
      id = id;
      reference = reference;
      type = funding;
      status = pending;
      amount = amount;
      currency = "NGN";
      source_wallet_id = none;
      destination_wallet_id = some wallet.id;
      initiated_by_user_id = payer.id;
      provider_reference = some provider_reference;
      idempotency_key = idempotency_key;
      extra_data = some (payment_url url);
      failure_reason = none;
      risk_flagged = false;
      created_at = env.now;
    }

-- Step 5, once Paystack has answered: the PENDING record and COMMIT. Nothing is written if the call
-- failed.
unfoldable pub record_funding :
    Env
    → User
    → Wallet
    → ℕ
    → Option String
    → String
    → Option (Option String × Option String)
    → Action WalletFundingOut
record_funding env payer wallet amount idempotency_key reference none = raise external_service
record_funding env payer wallet amount idempotency_key reference (some (url, provider)) = do
  id ← uuid4 env
  txn ← create (
      funding_record env id reference (or_default url "") (or_default provider reference) payer
        wallet amount idempotency_key)
  commit
  pure (funding_out txn)

-- Steps 3 and 4: an earlier transaction of the key, or a reference and the call of Paystack.
unfoldable pub start_funding :
    Env → User → Wallet → ℕ → Option String → Option Transaction → Action WalletFundingOut
start_funding env payer wallet amount idempotency_key (some existing) = pure (funding_out existing)
start_funding env payer wallet amount idempotency_key none = do
  reference_uuid ← uuid4 env
  let reference = "txn_" ++ env.hex reference_uuid
  record_funding env payer wallet amount idempotency_key reference
      (env.initialize_transaction payer.email amount reference)

unfoldable pub initiate_funding : Env → User → ℕ → Option String → Action WalletFundingOut
initiate_funding env payer amount idempotency_key = do
  wallet ← query (funding_wallet payer amount)
  used ← query (ask (get_by_key_if_given idempotency_key))
  start_funding env payer wallet amount idempotency_key used
