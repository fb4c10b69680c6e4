-- ===== src/Access/Privacy.antt =====
-- What the reading endpoints (Api/Customer) show is the caller's own.
use paycore_backend.Base.{
  ℕ, ◌≡◌, ◌==◌, ◌&&◌, String, Bool, true, Option, is_none, not, List, refl, arith, Option-cases,
  subst, inl, inr,
}
use paycore_backend.Base.Table.{All, find, find-sat}
use paycore_backend.Base.Rows.{select-sat, take-All, drop-All, oldest_first-All, All-map}
use paycore_backend.Core.Errors.{
  AppError, Result, Result-cases, ok, err, forbidden, not_found, wallet, merchant_profile,
  kyc_submission,
}
use paycore_backend.Core.Deps.{get_current_user}
use paycore_backend.Models.Rows.{User, Merchant, BankAccount}
use paycore_backend.Models.Rows
use paycore_backend.Models.Access.{KycSubmission}
use paycore_backend.Models.Transaction.{Transaction, TransactionType, TransactionStatus}
use paycore_backend.Database.{
  Db, Query, ask, answer, raise_if, raise_if-eq-ok, or_raise, or_raise_unless-eq-ok, >>=-eq-ok,
}
use paycore_backend.Database as Database
use paycore_backend.Session.{Env, Session, query}
use paycore_backend.Repositories.Transaction.{touches_wallet}
use paycore_backend.Repositories.Wallet
use paycore_backend.Repositories.Listing.{get_by_user, list_by_wallet, page, is_of_user}
use paycore_backend.Repositories.BankAccount.{get_accounts_by_user_id, is_live_of}
use paycore_backend.Repositories.Merchant.{get_merchant_by_user_id}
use paycore_backend.Repositories.Kyc.{get_latest_for_user}
use paycore_backend.Services.Transaction.{get_transaction, list_transactions, get_statement}
use paycore_backend.Services.Wallet.{get_wallet}
use paycore_backend.Services.Kyc.{get_my_submission}
use paycore_backend.Services.Merchant.{get_merchant_profile}
use paycore_backend.Services.BankAccounts.{list_bank_accounts}
use paycore_backend.Api.Customer.{
  as_user, get_my_profile, get_my_kyc, get_my_merchant, list_my_transactions, get_my_transaction,
  active_wallet, get_my_wallet, get_my_transactions, list_my_bank_accounts, withdrawal_of,
  get_withdrawal_status,
}

-- The first row that a condition lets through.
first-own :
    {A : Type 0} (p : A → Bool) (P : A → Type 0) (l : List A) (x : AppError) (db : Db) {a : A}
    → ((b : A) → p b ≡ true → P b)
    → or_raise (find p l) x db ≡ ok a
    → P a
first-own p P l x db {a} own e = elim (Option-cases (find p l)) [
  | inl q ↦ let bad : or_raise (find p l) x db ≡ err x = rw q refl in absurd (cc)
  | inr (b, q) ↦
      let good : or_raise (find p l) x db ≡ ok b = rw q refl in
      let same : b ≡ a = cc in subst P same (own b (find-sat p l q))
]

-- What a read comes to: an error, or something of the user whom the token names.
pub data Shows {A : Type 0} (env : Env) (token : String) (s : Session) (Own : User → A → Type 0)
    : Result A × Session → Type 0 where
  refused : (e : AppError) → Shows env token s Own (err e, s)
  shown :
      (u : User) (a : A)
      → get_current_user env token s.db ≡ ok u
      → Own u a
      → Shows env token s Own (ok a, s)

as_user-Shows :
    {A : Type 0} (env : Env) (token : String) (s : Session) (Own : User → A → Type 0)
    (q : User → Query A)
    → ((u : User) (a : A) → q u s.db ≡ ok a → Own u a)
    → Shows env token s Own (as_user env token (λ u. query (q u)) s)
unfolding as_user
as_user-Shows env token s Own q own = elim (Result-cases (get_current_user env token s.db)) [
  | inl (e, c) ↦ rw c (refused e)
  | inr (u, c) ↦ elim (Result-cases (q u s.db)) [
    | inl (e, r) ↦ rw (c, r) (refused e)
    | inr (a, r) ↦ rw (c, r) (shown u a c (own u a r))
  ]
]

abbrev pub MyProfile : User → User → Type 0
MyProfile u profile = profile ≡ u

abbrev pub MyTransaction : User → Transaction → Type 0
MyTransaction u t = t.initiated_by_user_id ≡ u.id

abbrev pub MyTransactions : User → List Transaction × ℕ → Type 0
MyTransactions u shown_page = All (MyTransaction u) shown_page.0

-- The page is of a wallet of the user, on one side of each transaction.
abbrev pub MyStatement : User → List Transaction × ℕ → Type 0
MyStatement u shown_page =
    (w : Rows.Wallet) × (w.user_id ≡ u.id) × All (λ t. touches_wallet w.id t ≡ true) shown_page.0

abbrev pub MyAccounts : User → List BankAccount → Type 0
MyAccounts u l = All (λ a. a.user_id ≡ u.id) l

abbrev pub MySubmission : User → KycSubmission → Type 0
MySubmission u k = k.user_id ≡ u.id

abbrev pub MyMerchant : User → Merchant → Type 0
MyMerchant u m = m.user_id ≡ u.id

abbrev pub MyWallet : User → Rows.Wallet → Type 0
MyWallet u w = (w.user_id ≡ u.id) × (w.is_active ≡ true)

module _ (u : User) (db : Db) where
  get_transaction-mine :
      (reference : String) (t : Transaction)
      → get_transaction reference u.id db ≡ ok t
      → MyTransaction u t
  unfolding get_transaction
  get_transaction-mine reference t e = ground arith

  withdrawal_of-mine :
      (reference : String) (t : Transaction)
      → withdrawal_of reference u.id db ≡ ok t
      → MyTransaction u t
  unfolding withdrawal_of
  withdrawal_of-mine reference t e = ground arith

  list_transactions-mine :
      (limit offset : ℕ) (type : Option TransactionType) (status : Option TransactionStatus)
      (shown_page : List Transaction × ℕ)
      → list_transactions u.id limit offset type status db ≡ ok shown_page
      → MyTransactions u shown_page
  unfolding list_transactions get_by_user page
  list_transactions-mine limit offset type status shown_page e =
      let own : MyTransactions u (get_by_user u.id limit offset type status db) =
        take-All (MyTransaction u) limit _ (
          drop-All (MyTransaction u) offset _ (
            All-map (λ t. is_of_user u.id type status t ≡ true) (MyTransaction u) _
              (λ t h. ground arith) (select-sat (is_of_user u.id type status) db.transactions))) in
      subst (MyTransactions u) {x = get_by_user u.id limit offset type status db} {y = shown_page}
        (cc) own

  get_wallet-mine : (w : Rows.Wallet) → get_wallet u.id db ≡ ok w → w.user_id ≡ u.id
  unfolding get_wallet Wallet.get_by_user_id
  get_wallet-mine w e =
      let mine =
        first-own (Wallet.is_live_of_user u.id) (λ (x : Rows.Wallet). x.user_id ≡ u.id) db.wallets
          (not_found wallet) db {a = w} in
      mine (λ x h. ground arith) e

  get_merchant_profile-mine : (m : Merchant) → get_merchant_profile u.id db ≡ ok m → MyMerchant u m
  unfolding get_merchant_profile get_merchant_by_user_id
  get_merchant_profile-mine m e =
      first-own (λ (x : Merchant). x.user_id == u.id && is_none x.deleted_at) (MyMerchant u)
        db.merchants (not_found merchant_profile) db {a = m} (λ x h. ground arith) e

  get_my_submission-mine : (k : KycSubmission) → get_my_submission u.id db ≡ ok k → MySubmission u k
  unfolding get_my_submission get_latest_for_user
  get_my_submission-mine k e =
      first-own (λ (x : KycSubmission). x.user_id == u.id) (MySubmission u) db.kyc_submissions
        (not_found kyc_submission) db {a = k} (λ x h. ground arith) e

  active_wallet-mine : (w : Rows.Wallet) → active_wallet u.id db ≡ ok w → MyWallet u w
  unfolding active_wallet
  active_wallet-mine w e =
      let guard : Rows.Wallet → Query Rows.Wallet =
        λ x. Database.◌>>◌ (raise_if (not x.is_active) forbidden) (answer x) in
      let (w', found, rest) = >>=-eq-ok (get_wallet u.id) guard db e in
      let (_, on, last) =
        >>=-eq-ok (raise_if (not w'.is_active) forbidden) (λ _. answer w') db rest in
      let off = raise_if-eq-ok (not w'.is_active) forbidden db on in
      let active : w'.is_active ≡ true = ground arith in
      let same : w' ≡ w = cc in subst (MyWallet u) same (get_wallet-mine w' found, active)

  list_bank_accounts-mine : (l : List BankAccount) → list_bank_accounts u db ≡ ok l → MyAccounts u l
  unfolding list_bank_accounts get_accounts_by_user_id
  list_bank_accounts-mine l e =
      let own : MyAccounts u (get_accounts_by_user_id u.id db) =
        oldest_first-All (λ (a : BankAccount). a.user_id ≡ u.id) _
          (All-map (λ (a : BankAccount). is_live_of u.id a ≡ true) (λ a. a.user_id ≡ u.id) _
            (λ a h. ground arith) (select-sat (is_live_of u.id) db.bank_accounts)) in
      subst (MyAccounts u) (cc) own

  get_statement-mine :
      (limit offset : ℕ) (shown_page : List Transaction × ℕ)
      → get_statement u.id limit offset db ≡ ok shown_page
      → MyStatement u shown_page
  unfolding get_statement list_by_wallet page
  get_statement-mine limit offset shown_page e =
      let pages = λ (x : Rows.Wallet). (ask (list_by_wallet x.id limit offset)) in
      let (w, found, rest) = >>=-eq-ok (get_wallet u.id) pages db e in
      let Touches = λ (t : Transaction). touches_wallet w.id t ≡ true in
      let touching : All Touches (list_by_wallet w.id limit offset db).0 =
        take-All Touches limit _
          (drop-All Touches offset _ (select-sat (touches_wallet w.id) db.transactions)) in
      (
        w,
        get_wallet-mine w found,
        subst (λ (r : List Transaction × ℕ). All Touches r.0)
            {x = list_by_wallet w.id limit offset db} {y = shown_page} (cc) touching,
      )

-- Every endpoint of a user that reads leaves the session as it is and raises, or its token names a
-- user and what it answers is his: the user himself, transactions that he
-- initiated, the statement of a wallet of his, his bank accounts, KYC submission and merchant
-- profile, and his wallet if it is active.
pub reads-mine :
    (env : Env) (token reference : String) (limit offset : ℕ) (type : Option TransactionType)
    (status : Option TransactionStatus) (s : Session)
    → Shows env token s MyProfile (get_my_profile env token s)
      × Shows env token s MyTransaction (get_my_transaction env token reference s)
      × Shows env token s MyTransaction (get_withdrawal_status env token reference s)
      × Shows env token s MyTransactions (list_my_transactions env token limit offset type status s)
      × Shows env token s MyStatement (get_my_transactions env token limit offset s)
      × Shows env token s MyAccounts (list_my_bank_accounts env token s)
      × Shows env token s MySubmission (get_my_kyc env token s)
      × Shows env token s MyMerchant (get_my_merchant env token s)
      × Shows env token s MyWallet (get_my_wallet env token s)
unfolding get_my_profile get_my_transaction get_withdrawal_status list_my_transactions
    get_my_transactions list_my_bank_accounts get_my_kyc get_my_merchant get_my_wallet
reads-mine env token reference limit offset type status s = (
  as_user-Shows env token s MyProfile (λ u. answer u) (λ u p e. cc),
  as_user-Shows env token s MyTransaction _ (λ u t e. get_transaction-mine u s.db reference t e),
  as_user-Shows env token s MyTransaction _ (λ u t e. withdrawal_of-mine u s.db reference t e),
  as_user-Shows env token s MyTransactions _
      (λ u p e. list_transactions-mine u s.db limit offset type status p e),
  as_user-Shows env token s MyStatement _ (λ u p e. get_statement-mine u s.db limit offset p e),
  as_user-Shows env token s MyAccounts _ (λ u l e. list_bank_accounts-mine u s.db l e),
  as_user-Shows env token s MySubmission _ (λ u k e. get_my_submission-mine u s.db k e),
  as_user-Shows env token s MyMerchant _ (λ u m e. get_merchant_profile-mine u s.db m e),
  as_user-Shows env token s MyWallet _ (λ u w e. active_wallet-mine u s.db w e),
)
