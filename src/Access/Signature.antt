-- ===== src/Access/Signature.antt =====
-- Only what Paystack signed reaches the queue (Api/Webhooks).
use paycore_backend.Base.{
  ◌≡◌, ◌≢◌, inl, inr, [], ◌∷◌, ◌++◌, String, true, false, ◌&&◌, str_eq, eq_iff, Bool-cases, refl,
  sym, subst, if◌then◌else◌,
}
use paycore_backend.Core.Errors.{AppError, Result, ok, err, type_error, Result-cases}
use paycore_backend.Session.{
  Env, Session, ParsedBody, malformed, not_object, event, process_paystack_webhook,
}
use paycore_backend.Database.{Db}
use paycore_backend.Api.Webhooks.{
  is_ascii, compare_digest, verify_signature, accept_event, receive_paystack_webhook,
}

verify_signature-authentic :
    (env : Env) (raw_body signature : String) (db : Db)
    → verify_signature env raw_body signature db ≡ ok true
    → (env.paystack_webhook_secret ≢ "")
      × (signature ≡ env.hmac_sha512 env.paystack_webhook_secret raw_body)
unfolding verify_signature compare_digest
verify_signature-authentic env raw_body signature db e =
    let mac = env.hmac_sha512 env.paystack_webhook_secret raw_body in
    elim (Bool-cases (str_eq env.paystack_webhook_secret "")) [
      | inl q ↦
          let bad : verify_signature env raw_body signature db ≡ ok false = rw q refl in absurd (cc)
      | inr q ↦ elim (Bool-cases (is_ascii mac && is_ascii signature)) [
        | inl a ↦
            let compared : verify_signature env raw_body signature db ≡ ok (str_eq mac signature) =
              rw (q, a) refl in
            let same : str_eq mac signature ≡ true = cc in
            (
              λ p. (let empty = (eq_iff env.paystack_webhook_secret "").1 p in cc),
              sym ((eq_iff mac signature).0 same),
            )
        | inr a ↦
            let bad : verify_signature env raw_body signature db ≡ err type_error =
              rw (q, a) refl in
            absurd (cc)
      ]
    ]

-- What the endpoint does with a body.
pub data Receives (env : Env) (raw_body signature : String) (s : Session)
    : Result (Unit {0}) × Session → Type 0 where
  refused : (e : AppError) → Receives env raw_body signature s (err e, s)
  accepted :
      (event_type data_text : String)
      → env.paystack_webhook_secret ≢ ""
      → signature ≡ env.hmac_sha512 env.paystack_webhook_secret raw_body
      → env.json_loads raw_body ≡ event event_type data_text
      → Receives env raw_body signature s (
        ok tt,
        record s {
          queue =
              if env.broker_up
              then s.queue ++ (process_paystack_webhook event_type data_text ∷ [])
              else s.queue;
        },
      )

enqueued :
    (env : Env) (event_type data_text : String) (s : Session)
    → accept_event env (event event_type data_text) s ≡ (
      ok tt,
      record s {
        queue =
            if env.broker_up
            then s.queue ++ (process_paystack_webhook event_type data_text ∷ [])
            else s.queue;
      },
    )
unfolding accept_event
enqueued env event_type data_text s = elim (Bool-cases env.broker_up) [
  | inl up ↦ rw up refl
  | inr down ↦ rw down refl
]

accept_event-Receives :
    (env : Env) (raw_body signature : String) (s : Session) (parsed : ParsedBody)
    → env.json_loads raw_body ≡ parsed
    → env.paystack_webhook_secret ≢ ""
    → signature ≡ env.hmac_sha512 env.paystack_webhook_secret raw_body
    → Receives env raw_body signature s (accept_event env parsed s)
unfolding accept_event
accept_event-Receives env raw_body signature s malformed e secret mac = refused _
accept_event-Receives env raw_body signature s not_object e secret mac = refused _
accept_event-Receives env raw_body signature s (event event_type data_text) e secret mac =
    subst (Receives env raw_body signature s) (sym (enqueued env event_type data_text s))
      (accepted event_type data_text secret mac e)

-- The endpoint for Paystack's webhook either raises and leaves the session as it is, or the secret is
-- configured, the signature is the HMAC of the body under it, the body is an event, and all it does is
-- to enqueue that event, or nothing where the broker is down.
pub receive_paystack_webhook-Receives :
    (env : Env) (raw_body signature : String) (s : Session)
    → Receives env raw_body signature s (receive_paystack_webhook env raw_body signature s)
unfolding receive_paystack_webhook
receive_paystack_webhook-Receives env raw_body signature s =
    elim (Result-cases (verify_signature env raw_body signature s.db)) [
      | inl (e, q) ↦ rw q (refused e)
      | inr (valid, q) ↦ elim (Bool-cases valid) [
        | inl good ↦
            let both = verify_signature-authentic env raw_body signature s.db (rw⁻¹ good q) in
            rw (q, good)
              (accept_event-Receives env raw_body signature s (env.json_loads raw_body) refl both.0
                both.1)
        | inr bad ↦ rw (q, bad) (refused _)
      ]
    ]
