-- ===== src/Session.antt =====
-- A database session (app/core/database.py) as explicit state, and what surrounds it. `db` is what
-- the session sees, its own flushed writes included; `committed` is what COMMIT has made durable.
-- A session that ends without COMMIT leaves no trace of its writes. `queue` holds the Celery tasks
-- that were enqueued, `payouts` the calls of Paystack's transfer endpoint and `posts` the
-- deliveries to merchants, newest first; none of them is undone by a rollback.
use paycore_backend.Base.{ℕ, ◌+◌, String, ◌≡◌, Bool, Option, List, [], ◌∷◌, ◌++◌, if◌then◌else◌}
use paycore_backend.Core.Errors.{AppError, broker_unavailable, Result, ok, err, is_integrity}
use paycore_backend.Database.{Books, Db, Query}

pub data Task : Type 0 where
  flag_transaction_risk deliver_merchant_webhook process_withdrawal : ℕ → Task
  process_paystack_webhook : String → String → Task
  check_stale_transactions : Task

-- A call of `PaystackClient.initiate_transfer`.
pub record Payout : Type 0 where
  pub amount_kobo : ℕ
  pub recipient_code : String
  pub reference : String

-- A POST to a merchant's URL. The body is the payload of the delivery, and its signature the HMAC
-- of the body under the secret: both are functions of what stands here.
pub record WebhookPost : Type 0 where
  pub url : String
  pub delivery_id : ℕ
  pub secret : String

-- The answer to it: an HTTP status code, or an exception with its text.
pub data PostAnswer : Type 0 where
  responded : ℕ → PostAnswer
  raised : String → PostAnswer

-- The JSON of a webhook's body: not JSON at all, no object, or the texts of its `event` and `data`.
pub data ParsedBody : Type 0 where
  malformed not_object : ParsedBody
  event : String → String → ParsedBody

-- What a session asks of the libraries for passwords and tokens: bcrypt, SHA-256, random tokens, and
-- JWT, whose `decode` answers `none` for a token that is forged, expired at the time or issued after
-- it.
pub record AccessClaims : Type 0 where
  pub sub : Option ℕ
  pub role : String
  pub type : String
  pub iat : ℕ
  pub exp : ℕ

pub record Security : Type 0 where
  pub hashpw : ℕ → String → String
  pub checkpw : String → String → Bool
  pub sha256 : String → String
  pub token_urlsafe : ℕ → String
  pub encode : AccessClaims → String
  pub decode : ℕ → String → Option AccessClaims

-- What the code takes from outside: the clock, UUIDs (the k-th one drawn), their hexadecimal digits
-- and their text, text normalisation, decimals, whether the Celery broker and the audit table can be written, and
-- Paystack's answers, where `none` is a failed call; `initialize_transaction` answers with a URL and
-- a reference, either of which may be missing.
pub record Env : Type 0 where
  pub now : ℕ
  pub uuid : ℕ → ℕ
  pub hex : ℕ → String
  pub hex12 : ℕ → String
  pub uuid_text : ℕ → String
  pub lower_strip : String → String
  pub decimal : ℕ → String
  pub broker_up : Bool
  pub audit_up : Bool
  pub initialize_transaction : String → ℕ → String → Option (Option String × Option String)
  pub create_transfer_recipient : String → String → String → Option String
  pub initiate_transfer : Payout → Option String
  pub paystack_secret_key : String
  pub resolve_account : String → String → Option (Option String)
  pub post_webhook : WebhookPost → PostAnswer
  pub upload_file : String → Bool
  pub presigned_url : String → Option String
  pub paystack_webhook_secret : String
  pub hmac_sha512 : String → String → String
  pub json_loads : String → ParsedBody
  pub security : Security

pub record Session : Type 0 where
  pub db : Db
  pub committed : Db
  pub queue : List Task
  pub drawn : ℕ
  pub payouts : List Payout
  pub posts : List WebhookPost

-- A method of a service: the session goes on from what a raise left behind.
abbrev pub Action : Type 0 → Type 0
Action A = Session → Result A × Session

module _ {A : Type 0} where
  abbrev pub pure : A → Action A
  pure a s = (ok a, s)

  abbrev pub raise : AppError → Action A
  raise e s = (err e, s)

  abbrev pub query : Query A → Action A
  query q s = (q s.db, s)

  abbrev pub catch_integrity : Result A × Session → Action A → Result A × Session
  catch_integrity (ok a, s) h = (ok a, s)
  catch_integrity (err e, s) h = if is_integrity e then h s else (err e, s)

  -- `try: m  except IntegrityError: h`
  abbrev pub on_integrity : Action A → Action A → Action A
  on_integrity m h s = catch_integrity (m s) h

  -- A request or a task: a session of its own, which ends by dropping what was not committed.
  abbrev pub request : Action A → Action A
  request m s =
      let (r, s') = m (record s { db = s.committed }) in (r, record s' { db = s'.committed })

abbrev pub resume : {A B : Type 0} → Result A × Session → (A → Action B) → Result B × Session
resume (ok a, s) f = f a s
resume (err e, s) f = (err e, s)

infixl 5 ◌>>=◌ ◌>>◌
abbrev pub ◌>>=◌ : {A B : Type 0} → Action A → (A → Action B) → Action B
◌>>=◌ m f s = resume (m s) f

abbrev pub ◌>>◌ : {A B : Type 0} → Action A → Action B → Action B
m >> k = m >>= λ _. k

abbrev pub commit : Action (Unit {0})
commit s = (ok tt, record s { committed = s.db })

abbrev pub rollback : Action (Unit {0})
rollback s = (ok tt, record s { db = s.committed })

abbrev pub modify : (Db → Db) → Action (Unit {0})
modify f s = (ok tt, record s { db = f s.db })

abbrev pub modify_books : (Books → Books) → Action (Unit {0})
modify_books f s = (ok tt, record s { db = record s.db { books = f s.db.books } })

abbrev pub post_webhook : Env → WebhookPost → Action PostAnswer
post_webhook env post s = (ok (env.post_webhook post), record s { posts = post ∷ s.posts })

abbrev pub uuid4 : Env → Action ℕ
uuid4 env s = (ok (env.uuid s.drawn), record s { drawn = s.drawn + 1 })

-- `task.delay(...)`
abbrev pub delay : Env → Task → Action (Unit {0})
delay env task s =
    if env.broker_up
    then (ok tt, record s { queue = s.queue ++ (task ∷ []) })
    else (err broker_unavailable, s)

-- `try: m  except Exception: log`
abbrev pub attempt : Action (Unit {0}) → Action (Unit {0})
attempt m s = (ok tt, (m s).1)

-- A session without pending writes.
abbrev pub IsClean : Session → Type 0
IsClean s = s.db ≡ s.committed
