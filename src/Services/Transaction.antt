-- ===== src/Services/Transaction.antt =====
-- app/services/transaction.py, and the statement of app/services/wallet.py.
use Prim.Native.String.{◌++◌}
use paycore_backend.Base.{ℕ, String, Bool, Option, none, some, List, ◌==◌, false}
use paycore_backend.Core.Errors.{not_found}
use paycore_backend.Core.Errors as Errors
use paycore_backend.Models.Transaction.{
  Transaction, TransactionType, TransactionStatus, ExtraData, pending,
}
use paycore_backend.Database.{Query, ask, or_raise_unless, ◌>>=◌}
use paycore_backend.Session.{Env, Action, query, pure, uuid4}
use paycore_backend.Session as Session
use paycore_backend.Repositories.Transaction.{create, get_by_reference, get_by_key_if_given}
use paycore_backend.Repositories.Listing.{get_by_user, list_by_wallet}
use paycore_backend.Services.Wallet.{get_wallet}

-- The arguments of `create_transaction`.
pub record Draft : Type 0 where
  pub type : TransactionType
  pub amount : ℕ
  pub initiated_by_user_id : ℕ
  pub source_wallet_id : Option ℕ
  pub destination_wallet_id : Option ℕ
  pub currency : String
  pub idempotency_key : Option String
  pub extra_data : Option ExtraData

abbrev pub draft_record : Env → ℕ → ℕ → Draft → Transaction
draft_record env id reference_uuid d = record {
  id = id;
  reference = "txn_" ++ env.uuid_text reference_uuid;
  type = d.type;
  status = pending;
  amount = d.amount;
  currency = d.currency;
  source_wallet_id = d.source_wallet_id;
  destination_wallet_id = d.destination_wallet_id;
  initiated_by_user_id = d.initiated_by_user_id;
  provider_reference = none;
  idempotency_key = d.idempotency_key;
  extra_data = d.extra_data;
  failure_reason = none;
  risk_flagged = false;
  created_at = env.now;
}

unfoldable pub create_draft : Env → Draft → Action Transaction
create_draft env d = Session.◌>>=◌ (uuid4 env) (λ reference_uuid.
    Session.◌>>=◌ (uuid4 env) (λ id. create (draft_record env id reference_uuid d)))

unfoldable pub existing_or_draft : Env → Draft → Option Transaction → Action Transaction
existing_or_draft env d none = create_draft env d
existing_or_draft env d (some existing) = pure existing

unfoldable pub create_transaction : Env → Draft → Action Transaction
create_transaction env d =
    Session.◌>>=◌ (query (ask (get_by_key_if_given d.idempotency_key))) (existing_or_draft env d)

abbrev pub is_initiated_by : ℕ → Transaction → Bool
is_initiated_by user_id t = t.initiated_by_user_id == user_id

unfoldable pub get_transaction : String → ℕ → Query Transaction
get_transaction reference requesting_user_id = do
  found ← ask (get_by_reference reference)
  or_raise_unless (is_initiated_by requesting_user_id) found (not_found Errors.transaction)

unfoldable pub list_transactions :
    ℕ → ℕ → ℕ → Option TransactionType → Option TransactionStatus → Query (List Transaction × ℕ)
list_transactions user_id limit offset type status =
    ask (get_by_user user_id limit offset type status)

unfoldable pub get_statement : ℕ → ℕ → ℕ → Query (List Transaction × ℕ)
get_statement user_id limit offset = do
  mine ← get_wallet user_id
  ask (list_by_wallet mine.id limit offset)
