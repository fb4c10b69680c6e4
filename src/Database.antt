-- ===== src/Database.antt =====
-- The tables, and the reads that services make of them. `Books` are the tables of money: wallets,
-- transactions and ledger entries. A `Query` reads the tables and may raise; it writes nothing.
use paycore_backend.Base.{
  ◌≡◌, refl, Bool, true, false, Option, none, some, List, arith, if◌then◌else◌,
}
use paycore_backend.Core.Errors.{AppError, Result, ok, err}
use paycore_backend.Models.Transaction.{Transaction}
use paycore_backend.Models.Access.{RefreshToken, KycSubmission}
use paycore_backend.Models.Rows.{
  User, Wallet, LedgerEntry, Merchant, BankAccount, WebhookDelivery, AuditLog,
}

pub record Books : Type 0 where
  pub wallets : List Wallet
  pub transactions : List Transaction
  pub ledger_entries : List LedgerEntry

pub record Db : Type 0 where
  pub books : Books
  pub open books use *
  pub users : List User
  pub merchants : List Merchant
  pub bank_accounts : List BankAccount
  pub webhook_deliveries : List WebhookDelivery
  pub audit_logs : List AuditLog
  pub refresh_tokens : List RefreshToken
  pub kyc_submissions : List KycSubmission

abbrev pub Query : Type 0 → Type 0
Query A = Db → Result A

module _ {A : Type 0} where
  abbrev pub answer : A → Query A
  answer a db = ok a

  abbrev pub ask : (Db → A) → Query A
  ask f db = ok (f db)

  -- `if x is None: raise e`
  abbrev pub or_raise : Option A → AppError → Query A
  or_raise none e db = err e
  or_raise (some a) e db = ok a

  -- `if x is None or not x.is_active: raise e`
  abbrev pub or_raise_unless : (A → Bool) → Option A → AppError → Query A
  or_raise_unless active none e db = err e
  or_raise_unless active (some a) e db = if active a then ok a else err e

  -- `scalar_one_or_none()` where no constraint makes the row unique: two rows are an error.
  abbrev pub one_or_none : List A → Query (Option A)
  one_or_none List.[] db = ok none
  one_or_none (List.◌∷◌ a List.[]) db = ok (some a)
  one_or_none (List.◌∷◌ a (List.◌∷◌ b l)) db = err AppError.multiple_results

abbrev pub raise_if : Bool → AppError → Query (Unit {0})
raise_if true e db = err e
raise_if false e db = ok tt

infixl 5 ◌>>=◌ ◌>>◌
abbrev pub ◌>>=◌ : {A B : Type 0} → Query A → (A → Query B) → Query B
◌>>=◌ m f db = elim (m db) [ ok a ↦ f a db | err e ↦ err e ]

abbrev pub ◌>>◌ : {A B : Type 0} → Query A → Query B → Query B
m >> k = m >>= λ _. k

-- Inversion of a query that goes through.
pub >>=-eq-ok :
    {A B : Type 0} (m : Query A) (f : A → Query B) (db : Db) {b : B}
    → (m >>= f) db ≡ ok b
    → (a : A) × (m db ≡ ok a) × (f a db ≡ ok b)
>>=-eq-ok m f db h = ground arith

pub or_raise_unless-eq-ok :
    {A : Type 0} (active : A → Bool) (o : Option A) (e : AppError) (db : Db) {a : A}
    → or_raise_unless active o e db ≡ ok a
    → (o ≡ some a) × (active a ≡ true)
or_raise_unless-eq-ok active o e db h = ground arith

pub raise_if-eq-ok :
    (b : Bool) (e : AppError) (db : Db) {u : Unit {0}} → raise_if b e db ≡ ok u → b ≡ false
raise_if-eq-ok true e db h = cc
raise_if-eq-ok false e db h = refl
