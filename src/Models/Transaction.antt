-- ===== src/Models/Transaction.antt =====
-- app/models/transaction.py: the transaction row and its state machine.
use paycore_backend.Base.{ℕ, String, Bool, true, false, Option}

pub data TransactionType : Type 0 where
  funding transfer merchant_payment withdrawal reversal : TransactionType

pub data TransactionStatus : Type 0 where
  pending processing completed failed reversed : TransactionStatus

-- `new_status in VALID_TRANSITIONS[status]`.
unfoldable pub valid_transition : TransactionStatus → TransactionStatus → Bool
valid_transition pending processing = true
valid_transition processing completed = true
valid_transition processing failed = true
valid_transition completed reversed = true
valid_transition _ _ = false

-- `==` on the two enumerations.
abbrev pub is_status : TransactionStatus → TransactionStatus → Bool
is_status pending pending = true
is_status processing processing = true
is_status completed completed = true
is_status failed failed = true
is_status reversed reversed = true
is_status _ _ = false

abbrev pub is_type : TransactionType → TransactionType → Bool
is_type funding funding = true
is_type transfer transfer = true
is_type merchant_payment merchant_payment = true
is_type withdrawal withdrawal = true
is_type reversal reversal = true
is_type _ _ = false

-- The shapes of the JSON column `metadata` that the services write.
pub data ExtraData : Type 0 where
  bank_account_id : ℕ → ExtraData
  payment_url : String → ExtraData

pub record Transaction : Type 0 where
  pub id : ℕ
  pub reference : String
  pub type : TransactionType
  pub status : TransactionStatus
  pub amount : ℕ
  pub currency : String
  pub source_wallet_id : Option ℕ
  pub destination_wallet_id : Option ℕ
  pub initiated_by_user_id : ℕ
  pub provider_reference : Option String
  pub idempotency_key : Option String
  pub extra_data : Option ExtraData
  pub failure_reason : Option String
  pub risk_flagged : Bool
  pub created_at : ℕ
