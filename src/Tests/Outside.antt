-- ===== src/Tests/Outside.antt =====
-- The theorems on deliveries, Paystack's webhook and listings at concrete inputs.
use paycore_backend.Base.{◌+◌, ◌≡◌, ◌<◌, none, some, ◌++◌, refl, arith}
use paycore_backend.Base.Table.{get, length}
use paycore_backend.Models.Rows.{WebhookDelivery, failed}
use paycore_backend.Repositories.Listing.{get_by_user}
use paycore_backend.Repositories.WebhookDelivery.{delivery_id}
use paycore_backend.Workers.Webhooks.{deliver_webhook, max_attempts}
use paycore_backend.Deliveries.Runs.{IsRun, deliver_webhook-IsRun}
use paycore_backend.Deliveries.Exhaustion.{IsTracked, unsent, again, Failing-exhausts}
use paycore_backend.Api.Webhooks.{receive_paystack_webhook}
use paycore_backend.Access.Signature.{Receives, receive_paystack_webhook-Receives}
use paycore_backend.Listings.{Lists, IsAsked, get_by_user-pages}
use paycore_backend.Tests.Bank.{env, bank, db}
use paycore_backend.Tests.Desk.{desk, delivery, live_shop}

five : 5 < max_attempts
unfolding max_attempts length
five = omega arith

deliver_webhook-IsRun_example : IsRun (deliver_webhook env 41 desk)
deliver_webhook-IsRun_example = deliver_webhook-IsRun env 41 desk ((λ waits. five), tt)

tracked : IsTracked 41 5 desk
unfolding get
tracked = record {
  delivery = delivery;
  to = live_shop;
  there = refl;
  is_it = refl;
  waits = refl;
  attempts = refl;
  to_there = refl;
  reachable = refl;
}

six : 5 + 1 ≡ max_attempts
unfolding max_attempts length
six = refl

Failing-exhausts_example :
    (d : WebhookDelivery) × (get delivery_id 41
        (deliver_webhook env 41 desk).1.committed.webhook_deliveries
      ≡ some d)
    × (d.status ≡ failed)
    × (d.attempt_count ≡ max_attempts)
Failing-exhausts_example =
    Failing-exhausts 41 5 1 desk (deliver_webhook env 41 desk).1 tracked five
      (again env (λ post. refl) unsent) six

get_by_user-pages_example :
    ((get_by_user 1 1 0 none none db).0 ++ (get_by_user 1 2 (0 + 1) none none db).0
      ≡ (get_by_user 1 (1 + 2) 0 none none db).0)
    × Lists
        (IsAsked 1 none none)
        db.transactions
        (get_by_user 1 (get_by_user 1 1 0 none none db).1 0 none none db).0
get_by_user-pages_example = get_by_user-pages 1 1 2 0 none none db

receive_paystack_webhook-Receives_example :
    Receives env "W1" "mac" bank (receive_paystack_webhook env "W1" "mac" bank)
receive_paystack_webhook-Receives_example = receive_paystack_webhook-Receives env "W1" "mac" bank
