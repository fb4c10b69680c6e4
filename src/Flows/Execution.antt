-- ===== src/Flows/Execution.antt =====
-- `execute_payout` (Services/Withdrawal/Execution) leaves every balance, entry and hold as it is.
use paycore_backend.Base.{
  ℕ, ◌≡◌, true, false, Option, none, some, String, arith, refl, subst, sym, inl, inr, Bool-cases,
  str_eq, ◌||◌, ◌&&◌, not, is_none, Option-cases,
}
use paycore_backend.Base.Table.{get, get-put_self}
use paycore_backend.Core.Errors.{ok}
use paycore_backend.Models.Transaction.{
  Transaction, TransactionStatus, ExtraData, bank_account_id, payment_url, pending, processing,
  completed, failed, is_status, valid_transition,
}
use paycore_backend.Models.Rows.{BankAccount}
use paycore_backend.Session.{Env, Session, Payout}
use paycore_backend.Repositories.Transaction.{
  transaction_id, get_by_id, update_status_lem, with_status, put_transaction,
}
use paycore_backend.Repositories.People.{get_bank_account_by_id, set_recipient_code}
use paycore_backend.Services.Withdrawal.Execution.{
  keep_recipient, ensure_recipient, send_transfer, take_transfer_code, account_found, send_payout,
  start_and_send, start_processing, dispatch_payout, payout_account, payout_found, execute_payout,
}
use paycore_backend.Books.{IsSound, OneSided}
use paycore_backend.Books.Steps.{restated-IsSound}
use paycore_backend.Flows.{Sound, found-facts, resume-Sound, if-Sound}
use paycore_backend.Flows.Funding.{started-Sound}

-- A sound session with a one-sided row of its table.
record HasRow (t : Transaction) (s : Session) : Type 0 where
  sound : Sound s
  there : get transaction_id t.id s.db.transactions ≡ some t
  one_sided : OneSided t

-- The session's tables of money are those of another.
abbrev SameBooks : Session → Session → Type 0
SameBooks s s' = (s'.db.books ≡ s.db.books) × (s'.committed.books ≡ s.committed.books)

HasRow-SameBooks : (t : Transaction) (s s' : Session) → SameBooks s s' → HasRow t s → HasRow t s'
HasRow-SameBooks t s s' (seen, durable) h = record {
  sound = record {
    seen = subst IsSound (sym seen) h.sound.seen;
    durable = subst IsSound (sym durable) h.sound.durable;
  };
  there = subst (λ b. get transaction_id t.id b.transactions ≡ some t) (sym seen) h.there;
  one_sided = h.one_sided;
}

keep_recipient-SameBooks :
    (account : BankAccount) (answer : Option String) (s : Session)
    → SameBooks s (keep_recipient account answer s).1
unfolding keep_recipient set_recipient_code
keep_recipient-SameBooks account none s = (refl, refl)
keep_recipient-SameBooks account (some code) s = (ground arith, ground arith)

ensure_recipient-SameBooks :
    (env : Env) (account : BankAccount) (cached : Option String) (s : Session)
    → SameBooks s (ensure_recipient env account cached s).1
unfolding ensure_recipient
ensure_recipient-SameBooks env account none s = keep_recipient-SameBooks account _ s
ensure_recipient-SameBooks env account (some code) s = elim (Bool-cases (str_eq code "")) [
  | inl e ↦ rw e (keep_recipient-SameBooks account _ s)
  | inr e ↦ rw e (refl, refl)
]

send_transfer-SameBooks :
    (env : Env) (payout : Payout) (s : Session) → SameBooks s (send_transfer env payout s).1
unfolding send_transfer take_transfer_code
send_transfer-SameBooks env payout s = elim (Option-cases (env.initiate_transfer payout)) [
  | inl e ↦ rw e (refl, refl)
  | inr (c, e) ↦ rw e (refl, refl)
]

-- The row in PROCESSING takes the place of the one in PENDING.
started-HasRow :
    (t : Transaction) (s : Session)
    → t.status ≡ pending
    → HasRow t s
    → HasRow (with_status t processing none) (record s {
      db = record s.db { books = put_transaction (with_status t processing none) s.db.books };
    })
unfolding put_transaction with_status
started-HasRow t s e h = record {
  sound = started-Sound s h.sound t h.there h.one_sided e;
  there = get-put_self transaction_id (with_status t processing none) s.db.transactions h.there;
  one_sided = ground (arith, h.one_sided);
}

start_processing-HasRow :
    (t : Transaction) (status : TransactionStatus) (s : Session)
    → t.status ≡ status
    → HasRow t s
    → (t' : Transaction) × ((start_processing t s).0 ≡ ok t') × HasRow t' (start_processing t s).1
unfolding start_processing valid_transition
start_processing-HasRow t pending s e h =
    let waiting : is_status t.status pending ≡ true = ground arith in
    let valid : valid_transition t.status processing ≡ true = ground arith in
    rw (waiting, update_status_lem t processing none s, valid)
      (with_status t processing none, refl, started-HasRow t s e h)
start_processing-HasRow t _ s e h =
    let past : is_status t.status pending ≡ false = ground arith in rw past (t, refl, h)

-- The row gets a reference of the provider, and COMMIT.
provider_reference-Sound :
    (t : Transaction) (code : String) (s : Session)
    → HasRow t s
    → IsSound (put_transaction (record t { provider_reference = some code }) s.db.books)
provider_reference-Sound t code s h =
    restated-IsSound s.db.books h.sound.seen (record t { provider_reference = some code }) t h.there
      (λ i. refl) h.one_sided

send_payout-Sound :
    (env : Env) (code : String) (t : Transaction) (s : Session)
    → HasRow t s
    → Sound (send_payout env code t s).1
unfolding send_payout
send_payout-Sound env code t s h =
    let payout : Payout = record {
      amount_kobo = t.amount;
      recipient_code = code;
      reference = t.reference;
    } in
    let h1 = HasRow-SameBooks t s _ (send_transfer-SameBooks env payout s) h in
    resume-Sound (send_transfer env payout s) _ h1.sound λ transfer_code _. record {
      seen = provider_reference-Sound t transfer_code _ h1;
      durable = provider_reference-Sound t transfer_code _ h1;
    }

start_and_send-Sound :
    (env : Env) (code : String) (t : Transaction) (s : Session)
    → HasRow t s
    → Sound (start_and_send env t code s).1
unfolding start_and_send
start_and_send-Sound env code t s h =
    let (t', answer, h1) = start_processing-HasRow t t.status s refl h in
    resume-Sound (start_processing t s) _ h1.sound λ started e.
      (let same : t' ≡ started = cc in
        send_payout-Sound env code started _
          (subst (λ x. HasRow x (start_processing t s).1) same h1))

dispatch_payout-Sound :
    (env : Env) (t : Transaction) (account : BankAccount) (s : Session)
    → HasRow t s
    → Sound (dispatch_payout env t account s).1
unfolding dispatch_payout
dispatch_payout-Sound env t account s h =
    let o = ensure_recipient env account account.paystack_recipient_code s in
    let h1 =
      HasRow-SameBooks t s o.1
        (ensure_recipient-SameBooks env account account.paystack_recipient_code s) h in
    resume-Sound o _ h1.sound λ code _. (start_and_send-Sound env code t o.1 h1)

payout_account-Sound :
    (env : Env) (t : Transaction) (extra : Option ExtraData) (s : Session)
    → HasRow t s
    → Sound (payout_account env t extra s).1
unfolding payout_account account_found
payout_account-Sound env t none s h = h.sound
payout_account-Sound env t (some (payment_url url)) s h = h.sound
payout_account-Sound env t (some (bank_account_id i)) s h =
    elim (Option-cases (get_bank_account_by_id i s.db)) [
      | inl e ↦ rw e h.sound
      | inr (account, e) ↦ rw e (dispatch_payout-Sound env t account s h)
    ]

-- The task that dispatches a withdrawal, run on a session with sound books, keeps them sound,
-- whichever of its steps fails.
pub execute_payout-Sound :
    (env : Env) (id : ℕ) (s : Session) → Sound s → Sound (execute_payout env id s).1
unfolding execute_payout payout_found get_by_id
execute_payout-Sound env id s sound = elim (Option-cases (get_by_id id s.db)) [
  | inl e ↦ rw e sound
  | inr (t, e) ↦ rw e (
      let (there, one_sided) = found-facts s.db.books _ sound.seen e in
      if-Sound (is_status t.status completed || is_status t.status failed) _ _ s sound (
        if-Sound (is_status t.status processing && not (is_none t.provider_reference)) _ _ s sound (
          payout_account-Sound env t t.extra_data s
            (record { sound = sound; there = there; one_sided = one_sided }))))
]
