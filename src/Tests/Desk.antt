-- ===== src/Tests/Desk.antt =====
-- The bank with a token of Alice, a submission of Carol and a delivery to Bob's shop.
use paycore_backend.Base.{none, some, [], ◌∷◌, false, refl, arith, ltb, leb, ◌&&◌, if◌then◌else◌}
use paycore_backend.Base.Table.{get, find, sum_by}
use paycore_backend.Core.Security.{access_claims}
use paycore_backend.Models.Rows.{User, WebhookDelivery, Merchant, pending}
use paycore_backend.Models.Access.{RefreshToken, KycSubmission}
use paycore_backend.Models.Access as Access
use paycore_backend.Database.{Db}
use paycore_backend.Session.{Env, Session}
use paycore_backend.Accounts.Default.{IsOneDefault}
use paycore_backend.Kyc.Orderly.{IsOrderly, submitted-IsOrderly}
use paycore_backend.Kyc.Reviews.{Orderly}
use paycore_backend.Tests.Bank.{env, person, alice, bob, shop, db}

abbrev pub carol : User
carol = record (person 3 "carol") { kyc_tier = 0 }

abbrev pub token : RefreshToken
token = record {
  id = 61;
  user_id = 1;
  token_hash = "old";
  expires_at = 2_000_000;
  is_revoked = false;
}

abbrev pub submission : KycSubmission
submission = record {
  id = 51;
  user_id = 3;
  requested_tier = 1;
  status = Access.pending;
  document_key = "kyc/3";
  reviewer_id = none;
  rejection_reason = none;
  reviewed_at = none;
}

abbrev pub delivery : WebhookDelivery
delivery = record {
  id = 41;
  merchant_id = 21;
  transaction_id = 101;
  event_type = "payment";
  status = pending;
  attempt_count = 5;
  next_retry_at = some 1_000_000;
  last_response_code = some 500;
  last_error = none;
}

abbrev pub live_shop : Merchant
live_shop = record shop { api_key_prefix = "pk_live_"; api_key_hash = "pk_live_7" }

abbrev pub desk_db : Db
desk_db = record db {
  users = carol ∷ alice ∷ bob ∷ [];
  merchants = live_shop ∷ [];
  webhook_deliveries = delivery ∷ [];
  refresh_tokens = token ∷ [];
  kyc_submissions = submission ∷ [];
}

abbrev pub desk : Session
desk = record { db = desk_db; committed = desk_db; queue = []; drawn = 0; payouts = []; posts = [] }

-- JWT until the token of Alice expires.
abbrev pub jwt_env : Env
jwt_env = record env {
  security = record env.security {
    decode = λ now text.
        (if leb 1_000_000 now && ltb now 1_001_800
          then some (access_claims env 1 "user")
          else none);
  };
}

nothing-IsOrderly : IsOrderly [] desk_db.users
unfolding get sum_by
nothing-IsOrderly = record {
  subs_keyed = tt;
  users_keyed = (refl, (refl, (refl, tt)));
  single = λ u tier. (omega arith);
  next = λ i {k = k} {u = u} at waits mine. absurd (cc);
}

pub desk-Orderly : Orderly desk_db
unfolding get find
desk-Orderly =
    submitted-IsOrderly [] desk_db.users nothing-IsOrderly submission carol refl refl refl refl refl

pub desk-IsOneDefault : IsOneDefault desk_db.bank_accounts
unfolding get sum_by
desk-IsOneDefault = record { keyed = (refl, tt); one = λ u. (ground arith) }
