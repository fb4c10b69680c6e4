-- ===== src/Deliveries/Runs.antt =====
-- One run of the delivery task: it never raises, and a PENDING delivery keeps attempts left.
use paycore_backend.Base.{
  ℕ, zero, suc, ◌+◌, ◌≡◌, String, Option, none, some, false, arith, refl, subst, sym, inl, inr,
  Bool-cases, Option-cases, leb,
}
use Prim.Native.String.{◌++◌}
use paycore_backend.Base.Table.{All, put-All, get_elem?, length}
use paycore_backend.Core.Errors.{Result, ok}
use paycore_backend.Models.Rows.{
  WebhookDelivery, WebhookDeliveryStatus, Merchant, pending, delivered, failed,
}
use paycore_backend.Session.{Env, Session, PostAnswer, responded, raised}
use paycore_backend.Repositories.WebhookDelivery.{delivery_id, put_delivery, get_delivery_by_id}
use paycore_backend.Services.WebhookDelivery.{is_given}
use paycore_backend.Workers.Webhooks.{
  max_attempts, retry_delays_minutes, exhaust, schedule, attempt_failed, attempt_succeeded,
  take_answer, deliver_to, deliver_at, delivery_found, deliver_webhook, is_success,
}
use paycore_backend.Deliveries.{IsLive, log-deliveries}

-- Below the maximum there is a delay for the next attempt.
pub get_elem?-retry_delays :
    (n : ℕ)
    → leb max_attempts n ≡ false
    → (delay : ℕ) × (get_elem? retry_delays_minutes n ≡ some delay)
unfolding get_elem? max_attempts length
get_elem?-retry_delays zero h = (0, refl)
get_elem?-retry_delays (suc zero) h = (2, refl)
get_elem?-retry_delays (suc (suc zero)) h = (4, refl)
get_elem?-retry_delays (suc (suc (suc zero))) h = (8, refl)
get_elem?-retry_delays (suc (suc (suc (suc zero)))) h = (16, refl)
get_elem?-retry_delays (suc (suc (suc (suc (suc zero))))) h = (32, refl)
get_elem?-retry_delays (suc (suc (suc (suc (suc (suc n)))))) h = absurd (ground arith)

-- A run that ended well with live deliveries.
pub record IsRun (o : Result (Unit {0}) × Session) : Type 0 where
  pub quiet : o.0 ≡ ok tt
  pub live : All IsLive o.1.committed.webhook_deliveries

module _ (env : Env) (d : WebhookDelivery) (s : Session)
    (live : All IsLive s.db.webhook_deliveries) where
  exhaust-IsRun : (code : Option ℕ) (error : String) → IsRun (exhaust env d code error s)
  unfolding exhaust put_delivery
  exhaust-IsRun code error =
      let (quiet, same) = log-deliveries env _ _ _ _ _ _ refl in
      record {
        quiet = quiet;
        live =
            subst (All IsLive) (sym same)
              (put-All delivery_id IsLive _ s.db.webhook_deliveries (λ e. absurd (cc)) live);
      }

  schedule-IsRun :
      (code : Option ℕ) (error : String) (delay : ℕ)
      → leb max_attempts (d.attempt_count + 1) ≡ false
      → IsRun (schedule env d code error (some delay) s)
  unfolding schedule put_delivery max_attempts length
  schedule-IsRun code error delay more = record {
    quiet = refl;
    live = put-All delivery_id IsLive _ s.db.webhook_deliveries (λ e. ground arith) live;
  }

  attempt_failed-IsRun :
      (code : Option ℕ) (error : String) → IsRun (attempt_failed env d code error s)
  unfolding attempt_failed
  attempt_failed-IsRun code error = elim (Bool-cases (leb max_attempts (d.attempt_count + 1))) [
    | inl e ↦ rw e (exhaust-IsRun code error)
    | inr e ↦
        let (delay, there) = get_elem?-retry_delays (d.attempt_count + 1) e in
        rw (e, there) (schedule-IsRun code error delay e)
  ]

  attempt_succeeded-IsRun : (code : ℕ) → IsRun (attempt_succeeded d code s)
  unfolding attempt_succeeded put_delivery
  attempt_succeeded-IsRun code = record {
    quiet = refl;
    live = put-All delivery_id IsLive _ s.db.webhook_deliveries (λ e. absurd (cc)) live;
  }

  take_answer-IsRun : (answer : PostAnswer) → IsRun (take_answer env d answer s)
  unfolding take_answer
  take_answer-IsRun (responded code) = elim (Bool-cases (is_success code)) [
    | inl e ↦ rw e (attempt_succeeded-IsRun code)
    | inr e ↦ rw e (attempt_failed-IsRun (some code) ("HTTP " ++ env.decimal code))
  ]
  take_answer-IsRun (raised error) = attempt_failed-IsRun none error

module _ (env : Env) (d : WebhookDelivery) (s : Session)
    (live : All IsLive s.db.webhook_deliveries) where
  deliver_to-IsRun : (found : Option Merchant) → IsRun (deliver_to env d found s)
  unfolding deliver_to put_delivery
  deliver_to-IsRun none = record {
    quiet = refl;
    live = put-All delivery_id IsLive _ s.db.webhook_deliveries (λ e. absurd (cc)) live;
  }
  deliver_to-IsRun (some m) = elim (Bool-cases (is_given m.webhook_url)) [
    | inl e ↦ rw e (take_answer-IsRun env d _ live _)
    | inr e ↦ rw e (record {
      quiet = refl;
      live = put-All delivery_id IsLive _ s.db.webhook_deliveries (λ e. absurd (cc)) live;
    })
  ]

  deliver_at-IsRun :
      (status : WebhookDeliveryStatus)
      → All IsLive s.committed.webhook_deliveries
      → IsRun (deliver_at env d status s)
  unfolding deliver_at
  deliver_at-IsRun delivered durable = record { quiet = refl; live = durable }
  deliver_at-IsRun pending durable = deliver_to-IsRun _
  deliver_at-IsRun failed durable = deliver_to-IsRun _

-- Where every PENDING delivery has attempts left, the delivery task does not raise, whatever the
-- merchant's server does, so that the list of delays is not read out of its range; and every PENDING
-- delivery has attempts left afterwards.
pub deliver_webhook-IsRun :
    (env : Env) (id : ℕ) (s : Session)
    → All IsLive s.committed.webhook_deliveries
    → IsRun (deliver_webhook env id s)
unfolding deliver_webhook delivery_found
deliver_webhook-IsRun env id s live = elim (Option-cases (get_delivery_by_id id s.committed)) [
  | inl e ↦ rw e (record { quiet = refl; live = live })
  | inr (d, e) ↦ rw e (
      let run = deliver_at-IsRun env d (record s { db = s.committed }) live d.status live in
      record { quiet = run.quiet; live = run.live })
]
