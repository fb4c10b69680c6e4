-- ===== src/Services/Merchant.antt =====
-- app/services/merchant.py: merchant profiles, their API keys and their webhook settings.
use paycore_backend.Base.{
  ℕ, String, Bool, true, false, not, Option, none, some, List, [], ◌∷◌, is_none, if◌then◌else◌,
}
use paycore_backend.Core.Errors.{conflict, not_found, merchant_profile, unauthorized}
use paycore_backend.Core.Security.{generate_api_key, verify_api_key, first_chars}
use paycore_backend.Models.Rows.{User, UserRole, Merchant, ActorType, Wallet as WalletRow}
use paycore_backend.Database.{Query, answer, ask, or_raise, raise_if}
use paycore_backend.Database as Database
use paycore_backend.Session.{Env, Action, pure, query, commit, uuid4, ◌>>=◌, ◌>>◌}
use paycore_backend.Repositories.Wallet as Wallet
use paycore_backend.Repositories.User.{put_user}
use paycore_backend.Repositories.Merchant.{
  create_merchant_row, get_merchant_by_user_id, get_active_by_prefix, update_api_key,
  update_webhook,
}
use paycore_backend.Services.Audit

unfoldable pub require_no_merchant : ℕ → Query (Unit {0})
require_no_merchant user_id =
    Database.◌>>=◌ (ask (get_merchant_by_user_id user_id))
      (λ existing. raise_if (not (is_none existing)) (conflict "MERCHANT_ALREADY_EXISTS"))

-- The wallet is made where the user has none.
unfoldable pub ensure_wallet : Env → ℕ → Option WalletRow → Action (Unit {0})
ensure_wallet env user_id none = do Wallet.create env user_id "NGN"; pure tt
ensure_wallet env user_id (some w) = pure tt

-- The merchant and the raw key, which is shown this once.
unfoldable pub create_merchant : Env → User → String → Action (Merchant × String)
create_merchant env u business_name = do
  query (require_no_merchant u.id)
  key ← generate_api_key env
  secret ← uuid4 env
  merchant ← create_merchant_row env u.id business_name key.2 key.1 (env.uuid_text secret)
  wallet ← query (ask (Wallet.get_by_user_id u.id))
  ensure_wallet env u.id wallet
  put_user (record u { role = UserRole.merchant })
  commit
  Audit.log env (some u.id) ActorType.user "merchant.created" "merchant" merchant.id
  Audit.log env (some u.id) ActorType.user "api_key.generated" "merchant" merchant.id
  pure (merchant, key.0)

unfoldable pub get_merchant_profile : ℕ → Query Merchant
get_merchant_profile user_id =
    Database.◌>>=◌ (ask (get_merchant_by_user_id user_id))
      (λ found. or_raise found (not_found merchant_profile))

unfoldable pub rotate_api_key : Env → ℕ → Action (Merchant × String)
rotate_api_key env user_id = do
  merchant ← query (get_merchant_profile user_id)
  key ← generate_api_key env
  rotated ← update_api_key merchant key.2 key.1
  commit
  Audit.log env (some rotated.user_id) ActorType.user "api_key.generated" "merchant" rotated.id
  pure (rotated, key.0)

unfoldable pub new_secret : Env → Bool → Action (Option String)
new_secret env true = do id ← uuid4 env; pure (some (env.uuid_text id))
new_secret env false = pure none

unfoldable pub update_webhook_config : Env → ℕ → Option String → Bool → Action Merchant
update_webhook_config env user_id webhook_url regenerate_secret = do
  merchant ← query (get_merchant_profile user_id)
  secret ← new_secret env regenerate_secret
  updated ← update_webhook merchant webhook_url secret
  commit
  pure updated

-- The first candidate whose hash the key verifies against.
unfoldable pub first_verified : Env → String → List Merchant → Option Merchant
first_verified env raw_key [] = none
first_verified env raw_key (candidate ∷ rest) =
    if verify_api_key env raw_key candidate.api_key_hash
    then some candidate
    else first_verified env raw_key rest

unfoldable pub authenticate : Env → String → Query Merchant
authenticate env raw_key =
    Database.◌>>=◌ (ask (get_active_by_prefix (first_chars 8 raw_key)))
      (λ candidates. or_raise (first_verified env raw_key candidates) unauthorized)
