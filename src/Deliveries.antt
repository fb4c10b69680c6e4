-- ===== src/Deliveries.antt =====
-- Deliveries of webhooks to merchants (Workers/Webhooks): what one run of the task does.
pub mod Runs
pub mod Exhaustion
use paycore_backend.Base.{ℕ, ◌+◌, ◌<◌, ◌≤◌, ◌≡◌, String, Option, arith, refl}
use paycore_backend.Base.Table.{length}
use paycore_backend.Models.Rows.{WebhookDelivery, pending, ActorType}
use paycore_backend.Session.{Env, Session, IsClean}
use paycore_backend.Core.Errors.{ok}
use paycore_backend.Services.Audit
use paycore_backend.Workers.Webhooks.{max_attempts}

-- A delivery that is still PENDING has attempts left.
abbrev pub IsLive : WebhookDelivery → Type 0
IsLive d = d.status ≡ pending → d.attempt_count < max_attempts

-- The audit trail leaves the deliveries alone, and does not raise.
pub log-deliveries :
    (env : Env) (actor : Option ℕ) (kind : ActorType) (action target : String) (id : ℕ)
    (s : Session)
    → IsClean s
    → ((Audit.log env actor kind action target id s).0 ≡ ok tt)
      × ((Audit.log env actor kind action target id s).1.committed.webhook_deliveries
          ≡ s.committed.webhook_deliveries)
unfolding Audit.log
log-deliveries env actor kind action target id s clean = (ground arith, ground arith)
