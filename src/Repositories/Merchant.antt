-- ===== src/Repositories/Merchant.antt =====
-- app/repositories/merchant.py: the writes of the table of merchants and its other queries.
use paycore_backend.Base.{
  ℕ, String, Bool, true, ◌&&◌, ◌||◌, Option, none, some, List, ◌∷◌, ◌==◌, str_eq, is_none,
  if◌then◌else◌,
}
use paycore_backend.Base.Table.{find, put, select}
use paycore_backend.Core.Errors.{integrity}
use paycore_backend.Models.Rows.{Merchant}
use paycore_backend.Database.{Db}
use paycore_backend.Session.{Env, Action, pure, raise, modify, uuid4, ◌>>=◌, ◌>>◌}
use paycore_backend.Repositories.People.{merchant_id}
use paycore_backend.Repositories.User.{or_else}

-- The primary key and `user_id` are UNIQUE, deleted rows included.
abbrev pub merchant_clashes : Merchant → Merchant → Bool
merchant_clashes new m = m.id == new.id || m.user_id == new.user_id

unfoldable pub insert_merchant : Merchant → Action Merchant
insert_merchant new s =
    if is_none (find (merchant_clashes new) s.db.merchants)
    then (do modify (λ db. record db { merchants = new ∷ db.merchants }); pure new) s
    else raise integrity s

unfoldable pub create_merchant_row : Env → ℕ → String → String → String → String → Action Merchant
create_merchant_row env user_id business_name api_key_hash api_key_prefix webhook_secret = do
  id ← uuid4 env
  insert_merchant (record {
    id = id;
    user_id = user_id;
    business_name = business_name;
    api_key_hash = api_key_hash;
    api_key_prefix = api_key_prefix;
    webhook_url = none;
    webhook_secret = some webhook_secret;
    is_active = true;
    deleted_at = none;
  })

unfoldable pub get_merchant_by_user_id : ℕ → Db → Option Merchant
get_merchant_by_user_id u db = find (λ m. m.user_id == u && is_none m.deleted_at) db.merchants

abbrev pub is_candidate : String → Merchant → Bool
is_candidate prefix m = str_eq m.api_key_prefix prefix && (m.is_active && is_none m.deleted_at)

unfoldable pub get_active_by_prefix : String → Db → List Merchant
get_active_by_prefix prefix db = select (is_candidate prefix) db.merchants

unfoldable pub put_merchant : Merchant → Action Merchant
put_merchant m = do modify (λ db. record db { merchants = put merchant_id m db.merchants }); pure m

unfoldable pub update_api_key : Merchant → String → String → Action Merchant
update_api_key m api_key_hash api_key_prefix =
    put_merchant (record m { api_key_hash = api_key_hash; api_key_prefix = api_key_prefix })

unfoldable pub update_webhook : Merchant → Option String → Option String → Action Merchant
update_webhook m webhook_url webhook_secret = put_merchant (record m {
  webhook_url = or_else webhook_url m.webhook_url;
  webhook_secret = or_else webhook_secret m.webhook_secret;
})

unfoldable pub soft_delete_merchant : Env → Merchant → Action Merchant
soft_delete_merchant env m = put_merchant (record m { deleted_at = some env.now })
