-- ===== src/Api/Webhooks.antt =====
-- app/api/v1/webhooks.py, with `PaystackWebhookService.verify_signature`. A body of bytes is a text.
use Prim.Native.Char.{code}
use Prim.Native.String as Text
use paycore_backend.Base.{String, Bool, true, false, not, ◌&&◌, ltb, str_eq, if◌then◌else◌}
use paycore_backend.Core.Errors.{ok, err, unauthorized, validation, type_error, attribute_error}
use paycore_backend.Database.{Query, answer, raise_if}
use paycore_backend.Session.{
  Env, Action, ParsedBody, malformed, not_object, event, process_paystack_webhook, query, raise,
  attempt, delay, ◌>>=◌, ◌>>◌,
}

unfoldable pub is_ascii : String → Bool
is_ascii Text.[] = true
is_ascii (Text.◌∷◌ c s) = ltb (code c) 128 && is_ascii s

-- `hmac.compare_digest` of two texts raises TypeError where one of them is not ASCII.
unfoldable pub compare_digest : String → String → Query Bool
compare_digest expected signature db =
    if is_ascii expected && is_ascii signature
    then ok (str_eq expected signature)
    else err type_error

unfoldable pub verify_signature : Env → String → String → Query Bool
verify_signature env raw_body signature =
    if str_eq env.paystack_webhook_secret ""
    then answer false
    else compare_digest (env.hmac_sha512 env.paystack_webhook_secret raw_body) signature

-- A task that cannot be enqueued is logged, and the answer is 200 all the same.
unfoldable pub accept_event : Env → ParsedBody → Action (Unit {0})
accept_event env malformed = raise (validation "INVALID_JSON")
accept_event env not_object = raise attribute_error
accept_event env (event event_type data_text) =
    attempt (delay env (process_paystack_webhook event_type data_text))

unfoldable pub receive_paystack_webhook : Env → String → String → Action (Unit {0})
receive_paystack_webhook env raw_body signature = do
  valid ← query (verify_signature env raw_body signature)
  query (raise_if (not valid) unauthorized)
  accept_event env (env.json_loads raw_body)
