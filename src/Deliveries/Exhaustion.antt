-- ===== src/Deliveries/Exhaustion.antt =====
-- A merchant whose server never accepts: the delivery ends as FAILED with the last attempt.
use paycore_backend.Base.{
  ℕ, suc, ◌+◌, ◌*◌, ◌<◌, ◌≡◌, String, Option, none, some, List, Bool, true, false, arith, refl,
  subst, sym, ap, leb, ◌∷◌, ◌∙◌,
}
use Prim.Native.String.{◌++◌}
use paycore_backend.Base.Table.{get, put, get-put_self, length}
use paycore_backend.Models.Rows.{WebhookDelivery, Merchant, pending, failed}
use paycore_backend.Database.{Db}
use paycore_backend.Session.{Env, Session, PostAnswer, WebhookPost, responded, raised}
use paycore_backend.Repositories.People.{merchant_id}
use paycore_backend.Repositories.WebhookDelivery.{delivery_id, put_delivery, get_delivery_by_id}
use paycore_backend.Services.WebhookDelivery.{is_given}
use paycore_backend.Workers.Webhooks.{
  max_attempts, exhaust, schedule, attempt_failed, take_answer, deliver_to, deliver_at,
  delivery_found, deliver_webhook, is_success, or_empty,
}
use paycore_backend.Deliveries.{log-deliveries}
use paycore_backend.Deliveries.Runs.{get_elem?-retry_delays}

-- The merchant accepts the POST.
abbrev pub accepts : PostAnswer → Bool
accepts (responded code) = is_success code
accepts (raised error) = false

-- No POST is accepted.
abbrev pub IsDown : Env → Type 0
IsDown env = (post : WebhookPost) → accepts (env.post_webhook post) ≡ false

-- A PENDING delivery with `k` attempts, to a merchant that has a URL.
pub record IsTracked (id k : ℕ) (s : Session) : Type 0 where
  pub delivery : WebhookDelivery
  pub to : Merchant
  pub there : get delivery_id id s.committed.webhook_deliveries ≡ some delivery
  pub is_it : delivery.id ≡ id
  pub waits : delivery.status ≡ pending
  pub attempts : delivery.attempt_count ≡ k
  pub to_there : get merchant_id delivery.merchant_id s.committed.merchants ≡ some to
  pub reachable : is_given to.webhook_url ≡ true

-- Runs of the task for one delivery, each while the merchant is down.
pub data Failing (id : ℕ) (s : Session) : ℕ → Session → Type 0 where
  unsent : Failing id s 0 s
  again :
      {n : ℕ} {s' : Session} (env : Env)
      → IsDown env
      → Failing id s n s'
      → Failing id s (suc n) (deliver_webhook env id s').1

take_answer-down :
    (env : Env) (d : WebhookDelivery) (answer : PostAnswer) (s : Session)
    → accepts answer ≡ false
    → (code : Option ℕ) × (error : String) × (take_answer env d answer s
        ≡ attempt_failed env d code error s)
unfolding take_answer
take_answer-down env d (responded code) s e = (some code, "HTTP " ++ env.decimal code, rw e refl)
take_answer-down env d (raised error) s e = (none, error, refl)

module _ (env : Env) (down : IsDown env) (id k : ℕ) (s : Session) (h : IsTracked id k s) where
  -- A run while the merchant is down is a failed attempt.
  deliver_webhook-down :
      (code : Option ℕ) × (error : String) × (s1 : Session) × (s1.db ≡ s.committed)
      × ((deliver_webhook env id s).1.committed
          ≡ (attempt_failed env h.delivery code error s1).1.committed)
  unfolding deliver_webhook delivery_found deliver_at deliver_to get_delivery_by_id
  deliver_webhook-down =
      let post : WebhookPost = record {
        url = or_empty h.to.webhook_url;
        delivery_id = h.delivery.id;
        secret = or_empty h.to.webhook_secret;
      } in
      let s1 : Session = record s { db = s.committed; posts = post ∷ s.posts } in
      let (code, error, e) =
        take_answer-down env h.delivery (env.post_webhook post) s1 (down post) in
      (code, error, s1, refl, rw h.there (simp h.waits (rw (h.to_there, h.reachable, e) refl)))

  -- The row after a failed attempt that is not the last one.
  retried : Option ℕ → String → ℕ → WebhookDelivery
  retried code error delay = record h.delivery {
    attempt_count = h.delivery.attempt_count + 1;
    last_response_code = code;
    last_error = some error;
    next_retry_at = some (env.now + delay * 60);
  }

  -- The tables after a row took the place of the delivery's.
  with_row : WebhookDelivery → Db
  with_row d = record s.committed {
    webhook_deliveries = put delivery_id d s.committed.webhook_deliveries;
  }

  get-with_row :
      (d : WebhookDelivery)
      → d.id ≡ h.delivery.id
      → get delivery_id id (with_row d).webhook_deliveries ≡ some d
  unfolding with_row
  get-with_row d same =
      let it = same ∙ h.is_it in
      subst (λ i. get delivery_id i (put delivery_id d s.committed.webhook_deliveries) ≡ some d) it
        (get-put_self delivery_id d s.committed.webhook_deliveries (
          subst (λ i. get delivery_id i s.committed.webhook_deliveries ≡ some h.delivery) (sym it)
            h.there))

  -- One more attempt, with a later retry while attempts are left.
  IsTracked-next : suc k < max_attempts → IsTracked id (suc k) (deliver_webhook env id s).1
  unfolding attempt_failed schedule put_delivery max_attempts length retried with_row
  IsTracked-next more =
      let (code, error, s1, same, run) = deliver_webhook-down in
      let made = h.attempts in
      let left : leb max_attempts (h.delivery.attempt_count + 1) ≡ false = ground arith in
      let (delay, e) = get_elem?-retry_delays (h.delivery.attempt_count + 1) left in
      let now : (deliver_webhook env id s).1.committed ≡ with_row (retried code error delay) =
        run
        ∙ rw (left, e)
            (ap
              (λ (db : Db). record db {
                webhook_deliveries =
                    put delivery_id (retried code error delay) db.webhook_deliveries;
              })
              same) in
      record {
        delivery = retried code error delay;
        to = h.to;
        there =
            subst
              (λ (db : Db).
                get delivery_id id db.webhook_deliveries ≡ some (retried code error delay))
              (sym now) (get-with_row (retried code error delay) refl);
        is_it = h.is_it;
        waits = h.waits;
        attempts = ground arith;
        to_there =
            subst (λ (db : Db). get merchant_id h.delivery.merchant_id db.merchants ≡ some h.to)
              (sym now) h.to_there;
        reachable = h.reachable;
      }

  -- The last attempt.
  IsTracked-last :
      suc k ≡ max_attempts
      → (d : WebhookDelivery) × (get delivery_id id
            (deliver_webhook env id s).1.committed.webhook_deliveries
          ≡ some d)
        × (d.status ≡ failed)
        × (d.attempt_count ≡ max_attempts)
  unfolding attempt_failed exhaust put_delivery with_row
  IsTracked-last last =
      let (code, error, s1, same, run) = deliver_webhook-down in
      let made = h.attempts in
      let none_left : leb max_attempts (h.delivery.attempt_count + 1) ≡ true = ground arith in
      let d : WebhookDelivery = record h.delivery {
        status = failed;
        attempt_count = h.delivery.attempt_count + 1;
        last_response_code = code;
        last_error = some error;
        next_retry_at = none;
      } in
      let rows : (deliver_webhook env id s).1.committed.webhook_deliveries
          ≡ (with_row d).webhook_deliveries =
        ap (λ (db : Db). db.webhook_deliveries) run
        ∙ rw none_left (
            (log-deliveries env _ _ _ _ _ _ refl).1
            ∙ ap (λ (db : Db). put delivery_id d db.webhook_deliveries) same) in
      (
        d,
        ap (λ (l : List WebhookDelivery). get delivery_id id l) rows ∙ get-with_row d refl,
        refl,
        ground arith,
      )

Failing-IsTracked :
    (id k : ℕ) (s : Session) (n : ℕ) (s' : Session)
    → IsTracked id k s
    → Failing id s n s'
    → k + n < max_attempts
    → IsTracked id (k + n) s'
Failing-IsTracked id k s _ s' h unsent few = subst (λ j. IsTracked id j s) (omega arith) h
Failing-IsTracked id k s (suc n) _ h (again {s' = before} env down runs) few =
    let h1 = Failing-IsTracked id k s n before h runs (omega arith) in
    let j : suc (k + n) ≡ k + suc n = omega arith in
    subst (λ j. IsTracked id j (deliver_webhook env id before).1) j
      (IsTracked-next env down id (k + n) before h1 (omega arith))

-- A delivery to a merchant with a URL whose server accepts no POST is given up in the end: after as
-- many runs of its task as it has attempts left, it is FAILED, with all attempts made.
pub Failing-exhausts :
    (id k n : ℕ) (s s' : Session)
    → IsTracked id k s
    → k < max_attempts
    → Failing id s n s'
    → k + n ≡ max_attempts
    → (d : WebhookDelivery) × (get delivery_id id s'.committed.webhook_deliveries ≡ some d)
      × (d.status ≡ failed)
      × (d.attempt_count ≡ max_attempts)
Failing-exhausts id k _ s s' h left unsent all = absurd (omega arith)
Failing-exhausts id k (suc n) s _ h left (again {s' = before} env down runs) all =
    IsTracked-last env down id (k + n) before
      (Failing-IsTracked id k s n before h runs (omega arith)) (omega arith)
