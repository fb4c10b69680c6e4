-- ===== src/Tests/Bank.antt =====
-- A small bank: Alice, Bob and his shop, and books that are sound.
use paycore_backend.Base.{
  ℕ, ◌+◌, String, none, some, [], ◌∷◌, true, false, refl, arith, inl, inr, str_eq,
}
use paycore_backend.Models.Transaction.{
  Transaction, funding, withdrawal, pending, processing, completed, bank_account_id,
}
use paycore_backend.Models.Rows.{User, Wallet, Merchant, BankAccount, LedgerEntry, UserRole, credit}
use paycore_backend.Database.{Books, Db}
use paycore_backend.Session.{Env, Session, responded, event}
use paycore_backend.Base.Table.{get, sum_by}
use paycore_backend.Flows.{Sound}
use paycore_backend.Books.{IsSound, Reconciles, balance_of, credits, debits, holds}

abbrev pub env : Env
env = record {
  now = 1_000_000;
  uuid = λ n. 1000 + n;
  hex = λ n. "a";
  hex12 = λ n. "b";
  uuid_text = λ n. "u";
  lower_strip = λ s. s;
  decimal = λ n. "n";
  broker_up = true;
  audit_up = true;
  initialize_transaction = λ email amount reference. some (some "https://pay", none);
  create_transfer_recipient = λ name number bank. some "RCP";
  initiate_transfer = λ payout. some "TRF";
  paystack_secret_key = "";
  resolve_account = λ number bank. none;
  post_webhook = λ post. responded 500;
  upload_file = λ key. true;
  presigned_url = λ key. none;
  paystack_webhook_secret = "secret";
  hmac_sha512 = λ key body. "mac";
  json_loads = λ body. event "transfer.failed" body;
  security = record {
    hashpw = λ salt plain. plain;
    checkpw = λ plain hashed. str_eq plain hashed;
    sha256 = λ raw. raw;
    token_urlsafe = λ n. "t";
    encode = λ claims. "jwt";
    decode = λ now token. none;
  };
}

abbrev pub person : ℕ → String → User
person id email = record {
  id = id;
  email = email;
  phone = none;
  hashed_password = "";
  full_name = "";
  role = UserRole.user;
  kyc_tier = 2;
  is_active = true;
  is_email_verified = true;
  deleted_at = none;
}

abbrev pub alice : User
alice = person 1 "alice"

abbrev pub bob : User
bob = person 2 "bob"

abbrev pub purse : ℕ → ℕ → ℕ → Wallet
purse id user_id balance = record {
  id = id;
  user_id = user_id;
  currency = "NGN";
  balance = balance;
  is_active = true;
  deleted_at = none;
}

-- A funding of Alice that ended, a funding of Bob under way, and a withdrawal of Alice of 200 kobo
-- that Paystack has not answered.
abbrev pub row : ℕ → String → ℕ → Transaction
row id reference amount = record {
  id = id;
  reference = reference;
  type = funding;
  status = completed;
  amount = amount;
  currency = "NGN";
  source_wallet_id = none;
  destination_wallet_id = some 11;
  initiated_by_user_id = 1;
  provider_reference = some reference;
  idempotency_key = none;
  extra_data = none;
  failure_reason = none;
  risk_flagged = false;
  created_at = 900_000;
}

abbrev pub funded_row : Transaction
funded_row = row 101 "F1" 1000

abbrev pub waiting_row : Transaction
waiting_row = record (row 102 "F2" 500) {
  status = pending;
  destination_wallet_id = some 12;
  initiated_by_user_id = 2;
}

abbrev pub own_row : Transaction
own_row = record (row 104 "F0" 300) {
  destination_wallet_id = some 12;
  initiated_by_user_id = 2;
  idempotency_key = some "k0";
}

abbrev pub held_row : Transaction
held_row = record (row 103 "W1" 200) {
  type = withdrawal;
  status = processing;
  source_wallet_id = some 11;
  destination_wallet_id = none;
  extra_data = some (bank_account_id 31);
}

abbrev pub credited : ℕ → ℕ → ℕ → ℕ → LedgerEntry
credited id transaction wallet amount = record {
  id = id;
  transaction_id = transaction;
  wallet_id = wallet;
  entry_type = credit;
  amount = amount;
  currency = "NGN";
  balance_after = amount;
  created_at = 900_000;
}

abbrev pub books : Books
books = record {
  wallets = purse 11 1 800 ∷ purse 12 2 300 ∷ [];
  transactions = held_row ∷ waiting_row ∷ funded_row ∷ own_row ∷ [];
  ledger_entries = credited 201 101 11 1000 ∷ credited 202 104 12 300 ∷ [];
}

abbrev pub shop : Merchant
shop = record {
  id = 21;
  user_id = 2;
  business_name = "Shop";
  api_key_hash = "";
  api_key_prefix = "";
  webhook_url = some "https://shop";
  webhook_secret = none;
  is_active = true;
  deleted_at = none;
}

abbrev pub account : BankAccount
account = record {
  id = 31;
  user_id = 2;
  account_name = "Bob";
  account_number = "0";
  bank_code = "0";
  bank_name = "";
  is_default = true;
  paystack_recipient_code = none;
  deleted_at = none;
}

abbrev pub db : Db
db = record {
  books = books;
  users = alice ∷ bob ∷ [];
  merchants = shop ∷ [];
  bank_accounts = account ∷ [];
  webhook_deliveries = [];
  audit_logs = [];
  refresh_tokens = [];
  kyc_submissions = [];
}

abbrev pub bank : Session
bank = record { db = db; committed = db; queue = []; drawn = 0; payouts = []; posts = [] }

books-Reconciles : (w : ℕ) → Reconciles books w
unfolding balance_of credits debits holds sum_by get
books-Reconciles w = ground arith

pub books-IsSound : IsSound books
unfolding get
books-IsSound = record {
  wallets_keyed = (refl, (refl, tt));
  transactions_keyed = (refl, (refl, (refl, (refl, tt))));
  one_sided = (inr (inr refl), (inr (inl refl), (inl refl, (inl refl, tt))));
  reconciles = books-Reconciles;
}

pub bank-Sound : Sound bank
bank-Sound = record { seen = books-IsSound; durable = books-IsSound }
