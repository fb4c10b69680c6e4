-- ===== src/Accounts/Promotion.antt =====
-- Deleting the default account promotes the oldest one that remains.
use paycore_backend.Base.{
  ℕ, ◌≡◌, true, false, List, [], ◌∷◌, some, arith, refl, Bool-cases, inl, inr, ◌==◌, ==_iff,
  is_none, if◌then◌else◌, subst, sym, ◌∙◌, ap,
}
use paycore_backend.Base.Table.{
  get, put, sum_by, select, length, IsKeyed, put-IsKeyed, sum_by-put, sum_by-get, All, oldest_first,
}
use paycore_backend.Base.Rows.{get-All, select-All, oldest_first-All, length-oldest_first}
use paycore_backend.Models.Rows.{BankAccount}
use paycore_backend.Database.{Db}
use paycore_backend.Repositories.People.{bank_account_id}
use paycore_backend.Repositories.BankAccount.{
  is_live_of, put_account, get_accounts_by_user_id, promote_first,
}
use paycore_backend.Accounts.Default.{
  live, default_live, IsOneDefault, length-select_live, gone-live, gone-default_live, other-live,
  own-live,
}

-- All is well but for one user, who has no default account.
pub record IsBereft (owner : ℕ) (l : List BankAccount) : Type 0 where
  pub keyed : IsKeyed bank_account_id l
  pub without : sum_by (default_live owner) l ≡ 0
  pub others :
      (u : ℕ)
      → (owner == u) ≡ false
      → sum_by (default_live u) l ≡ (if sum_by (live u) l == 0 then 0 else 1)

default-default_live :
    (a : BankAccount)
    → is_none a.deleted_at ≡ true
    → a.is_default ≡ true
    → default_live a.user_id a ≡ 1
default-default_live a e d = ground arith

-- The default account is deleted.
pub removed-IsBereft :
    (l : List BankAccount) (a a' : BankAccount)
    → IsOneDefault l
    → get bank_account_id a.id l ≡ some a
    → is_none a.deleted_at ≡ true
    → a.is_default ≡ true
    → is_none a'.deleted_at ≡ false
    → a'.id ≡ a.id
    → IsBereft a.user_id (put bank_account_id a' l)
removed-IsBereft l a a' h at here mine gone same =
    let there = subst (λ n. get bank_account_id n l ≡ some a) (sym same) at in
    record {
      keyed = put-IsKeyed bank_account_id a' l h.keyed;
      without =
          (let before = h.one a.user_id in
            let defaults = sum_by-put bank_account_id (default_live a.user_id) a' l there in
            let no_default = gone-default_live a.user_id a' gone in
            let was_default = default-default_live a here mine in ground arith);
      others = λ u e.
          (let before = h.one u in
            let lives = sum_by-put bank_account_id (live u) a' l there in
            let defaults = sum_by-put bank_account_id (default_live u) a' l there in
            let no_live = gone-live u a' gone in
            let no_default = gone-default_live u a' gone in
            let (not_live, not_default) = other-live u a e in ground arith);
    }

-- Whoever is left without any account needs no default.
alone-IsOneDefault :
    (owner : ℕ) (l : List BankAccount)
    → IsBereft owner l
    → sum_by (live owner) l ≡ 0
    → IsOneDefault l
alone-IsOneDefault owner l h nothing = record {
  keyed = h.keyed;
  one = λ u. (elim (Bool-cases (owner == u)) [
    | inl e ↦
        subst (λ v. sum_by (default_live v) l ≡ (if sum_by (live v) l == 0 then 0 else 1))
          ((==_iff owner u).0 e) (let none_here = h.without in ground arith)
    | inr e ↦ h.others u e
  ]);
}

live-facts :
    (owner : ℕ) (x : BankAccount)
    → is_live_of owner x ≡ true
    → (x.user_id ≡ owner) × (is_none x.deleted_at ≡ true)
live-facts owner x e = (ground arith, ground arith)

promoted_own :
    (l : List BankAccount) (x : BankAccount)
    → get bank_account_id x.id l ≡ some x
    → is_none x.deleted_at ≡ true
    → sum_by (default_live x.user_id) l ≡ 0
    → let l' = put bank_account_id (record x { is_default = true }) l in
      sum_by (default_live x.user_id) l' ≡ (if sum_by (live x.user_id) l' == 0 then 0 else 1)
promoted_own l x at here without =
    let new : BankAccount = record x { is_default = true } in
    let lives = sum_by-put bank_account_id (live x.user_id) new l at in
    let defaults = sum_by-put bank_account_id (default_live x.user_id) new l at in
    let no_default = sum_by-get bank_account_id (default_live x.user_id) x.id l at in
    let one_live = own-live x here in
    let at_least = sum_by-get bank_account_id (live x.user_id) x.id l at in
    let new_live = own-live new here in
    let new_default = default-default_live new here refl in ground arith

-- One of the accounts that are left becomes the default.
promoted-IsOneDefault :
    (owner : ℕ) (l : List BankAccount) (x : BankAccount)
    → IsBereft owner l
    → get bank_account_id x.id l ≡ some x
    → is_live_of owner x ≡ true
    → IsOneDefault (put bank_account_id (record x { is_default = true }) l)
promoted-IsOneDefault owner l x h at mine =
    let new : BankAccount = record x { is_default = true } in
    let (whose, here) = live-facts owner x mine in
    record {
      keyed = put-IsKeyed bank_account_id new l h.keyed;
      one = λ u.
          (let lives = sum_by-put bank_account_id (live u) new l at in
            let defaults = sum_by-put bank_account_id (default_live u) new l at in
            elim (Bool-cases (x.user_id == u)) [
              | inl e ↦
                  subst
                    (λ v.
                      sum_by (default_live v) (put bank_account_id new l)
                      ≡ (if sum_by (live v) (put bank_account_id new l) == 0 then 0 else 1))
                    ((==_iff x.user_id u).0 e)
                    (promoted_own l x at here
                      (subst (λ v. sum_by (default_live v) l ≡ 0) (sym whose) h.without))
              | inr e ↦
                  let before = h.others u (rw⁻¹ whose e) in
                  let (not_live, not_default) = other-live u x e in
                  let (new_live, new_default) = other-live u new e in ground arith
            ]);
    }

-- The row at the head of a user's accounts is a row of the table and the user's.
head-facts :
    (owner : ℕ) (l : List BankAccount) {x : BankAccount} {r : List BankAccount}
    → IsKeyed bank_account_id l
    → oldest_first (select (is_live_of owner) l) ≡ x ∷ r
    → (get bank_account_id x.id l ≡ some x) × (is_live_of owner x ≡ true)
head-facts owner l {x} {r} keyed e =
    let All-rows =
      oldest_first-All
        (λ (a : BankAccount). (get bank_account_id a.id l ≡ some a) × (is_live_of owner a ≡ true))
        (select (is_live_of owner) l)
        (select-All (λ (a : BankAccount). get bank_account_id a.id l ≡ some a) (is_live_of owner) l
          (get-All bank_account_id l keyed)) in
    (subst
      (All
        (λ (a : BankAccount). (get bank_account_id a.id l ≡ some a) × (is_live_of owner a ≡ true)))
      e All-rows).0

no_accounts :
    (owner : ℕ) (l : List BankAccount)
    → oldest_first (select (is_live_of owner) l) ≡ []
    → sum_by (live owner) l ≡ 0
unfolding length
no_accounts owner l e =
    sym (length-select_live owner l)
    ∙ sym (length-oldest_first (select (is_live_of owner) l))
    ∙ ap length e

promote_first-one :
    (owner : ℕ) (db : Db) (accounts : List BankAccount)
    → get_accounts_by_user_id owner db ≡ accounts
    → IsBereft owner db.bank_accounts
    → IsOneDefault (promote_first accounts db).bank_accounts
unfolding get_accounts_by_user_id promote_first put_account
promote_first-one owner db [] e h =
    alone-IsOneDefault owner db.bank_accounts h (no_accounts owner db.bank_accounts e)
promote_first-one owner db (x ∷ r) e h =
    let (at, mine) = head-facts owner db.bank_accounts h.keyed e in
    promoted-IsOneDefault owner db.bank_accounts x h at mine

-- What deletion makes of the accounts of a user who is left without a default.
pub promote_first-IsOneDefault :
    (owner : ℕ) (db : Db)
    → IsBereft owner db.bank_accounts
    → IsOneDefault (promote_first (get_accounts_by_user_id owner db) db).bank_accounts
promote_first-IsOneDefault owner db h = promote_first-one owner db _ refl h
