-- ===== src/Models/Rows.antt =====
-- The other rows of app/models. Identifiers are UUIDs, numbers here; times are seconds, and
-- `deleted_at` is the soft-delete mark of app/models/base.py. `created_at` is kept where it is read.
use paycore_backend.Base.{ℕ, String, Bool, Option}

pub data UserRole : Type 0 where
  user merchant admin : UserRole

pub record User : Type 0 where
  pub id : ℕ
  pub email : String
  pub phone : Option String
  pub hashed_password : String
  pub full_name : String
  pub role : UserRole
  pub kyc_tier : ℕ
  pub is_active : Bool
  pub is_email_verified : Bool
  pub deleted_at : Option ℕ

pub record Wallet : Type 0 where
  pub id : ℕ
  pub user_id : ℕ
  pub currency : String
  pub balance : ℕ
  pub is_active : Bool
  pub deleted_at : Option ℕ

pub data EntryType : Type 0 where
  debit credit : EntryType

pub record LedgerEntry : Type 0 where
  pub id : ℕ
  pub transaction_id : ℕ
  pub wallet_id : ℕ
  pub entry_type : EntryType
  pub amount : ℕ
  pub currency : String
  pub balance_after : ℕ
  pub created_at : ℕ

pub record Merchant : Type 0 where
  pub id : ℕ
  pub user_id : ℕ
  pub business_name : String
  pub api_key_hash : String
  pub api_key_prefix : String
  pub webhook_url : Option String
  pub webhook_secret : Option String
  pub is_active : Bool
  pub deleted_at : Option ℕ

pub record BankAccount : Type 0 where
  pub id : ℕ
  pub user_id : ℕ
  pub account_name : String
  pub account_number : String
  pub bank_code : String
  pub bank_name : String
  pub is_default : Bool
  pub paystack_recipient_code : Option String
  pub deleted_at : Option ℕ

pub data WebhookDeliveryStatus : Type 0 where
  pending delivered failed : WebhookDeliveryStatus

pub record WebhookDelivery : Type 0 where
  pub id : ℕ
  pub merchant_id : ℕ
  pub transaction_id : ℕ
  pub event_type : String
  pub status : WebhookDeliveryStatus
  pub attempt_count : ℕ
  pub next_retry_at : Option ℕ
  pub last_response_code : Option ℕ
  pub last_error : Option String

pub data ActorType : Type 0 where
  user admin system : ActorType

pub record AuditLog : Type 0 where
  pub id : ℕ
  pub actor_id : Option ℕ
  pub actor_type : ActorType
  pub action : String
  pub target_type : Option String
  pub target_id : Option ℕ
  pub created_at : ℕ
