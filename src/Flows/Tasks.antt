-- ===== src/Flows/Tasks.antt =====
-- The Celery tasks (Workers/Tasks) keep the committed books sound.
use paycore_backend.Base.{String, Bool-cases, inl, inr, str_eq}
use paycore_backend.Session.{Env, Session}
use paycore_backend.Services.PaystackWebhook.{ChargeData}
use paycore_backend.Workers.Tasks.{dispatch_event, route_event, is_transfer_event}
use paycore_backend.Books.{IsSound}
use paycore_backend.Flows.{Sound, request-Sound}
use paycore_backend.Flows.Funding.{process_charge_success-Sound}
use paycore_backend.Flows.Payout.{process_transfer_result-Sound}

route_event-Sound :
    (env : Env) (event_type : String) (charge : ChargeData) (transfer_code : String) (s : Session)
    → Sound s
    → Sound (route_event env event_type charge transfer_code s).1
unfolding route_event
route_event-Sound env event_type charge transfer_code s h =
    elim (Bool-cases (str_eq event_type "charge.success")) [
      | inl e ↦ rw e (process_charge_success-Sound env charge s h)
      | inr e ↦ rw e (elim (Bool-cases (is_transfer_event event_type)) [
        | inl q ↦
            rw q (process_transfer_result-Sound env event_type charge.reference transfer_code s h)
        | inr q ↦ rw q h
      ])
    ]

-- Whatever event Paystack's webhook hands to the task, known or not, the committed books stay sound.
pub dispatch_event-IsSound :
    (env : Env) (event_type : String) (charge : ChargeData) (transfer_code : String) (s : Session)
    → IsSound s.committed.books
    → IsSound (dispatch_event env event_type charge transfer_code s).1.committed.books
unfolding dispatch_event
dispatch_event-IsSound env event_type charge transfer_code s h =
    request-Sound (route_event env event_type charge transfer_code) s h
      (route_event-Sound env event_type charge transfer_code)
