-- ===== src/Accounts/Default.antt =====
-- A user with bank accounts has exactly one default among them, and a user without has none.
use paycore_backend.Base.{
  ℕ, ◌≡◌, ◌≤◌, true, false, ◌&&◌, List, [], ◌∷◌, none, some, arith, refl, Bool-cases, inl, inr,
  ◌==◌, ==_iff, is_none, if◌then◌else◌, subst, sym,
}
use paycore_backend.Base.Table.{get, put, sum_by, select, length, IsKeyed, put-IsKeyed, sum_by-put}
use paycore_backend.Models.Rows.{BankAccount}
use paycore_backend.Repositories.People.{bank_account_id}
use paycore_backend.Repositories.BankAccount.{is_live_of}

abbrev pub live : ℕ → BankAccount → ℕ
live u a = if is_live_of u a then 1 else 0

abbrev pub default_live : ℕ → BankAccount → ℕ
default_live u a = if is_live_of u a && a.is_default then 1 else 0

-- One default exactly where there is any account.
pub record IsOneDefault (l : List BankAccount) : Type 0 where
  pub keyed : IsKeyed bank_account_id l
  pub one : (u : ℕ) → sum_by (default_live u) l ≡ (if sum_by (live u) l == 0 then 0 else 1)

pub length-select_live :
    (u : ℕ) (l : List BankAccount) → length (select (is_live_of u) l) ≡ sum_by (live u) l
unfolding length select sum_by
length-select_live u [] = refl
length-select_live u (x ∷ l) = ground (arith, length-select_live u l)

-- A default account is an account.
defaults_le : (u : ℕ) (l : List BankAccount) → sum_by (default_live u) l ≤ sum_by (live u) l
unfolding sum_by
defaults_le u [] = omega arith
defaults_le u (x ∷ l) = ground (arith, defaults_le u l)

pub gone-live : (u : ℕ) (a : BankAccount) → is_none a.deleted_at ≡ false → live u a ≡ 0
gone-live u a e = ground arith

pub gone-default_live :
    (u : ℕ) (a : BankAccount) → is_none a.deleted_at ≡ false → default_live u a ≡ 0
gone-default_live u a e = ground arith

plain-default_live : (u : ℕ) (a : BankAccount) → a.is_default ≡ false → default_live u a ≡ 0
plain-default_live u a e = ground arith

first-default_live :
    (a : BankAccount) (n : ℕ)
    → is_none a.deleted_at ≡ true
    → a.is_default ≡ (n == 0)
    → default_live a.user_id a ≡ (if n == 0 then 1 else 0)
first-default_live a n e first = ground arith

pub own-live : (a : BankAccount) → is_none a.deleted_at ≡ true → live a.user_id a ≡ 1
own-live a e = ground arith

pub other-live :
    (u : ℕ) (a : BankAccount) → (a.user_id == u) ≡ false → (live u a ≡ 0) × (default_live u a ≡ 0)
other-live u a e = (ground arith, ground arith)

module _ (l : List BankAccount) (h : IsOneDefault l) where
  added_own :
      (a : BankAccount)
      → is_none a.deleted_at ≡ true
      → a.is_default ≡ (length (select (is_live_of a.user_id) l) == 0)
      → sum_by (default_live a.user_id) (a ∷ l)
        ≡ (if sum_by (live a.user_id) (a ∷ l) == 0 then 0 else 1)
  unfolding sum_by
  added_own a here first =
      let before = h.one a.user_id in
      let counted : a.is_default ≡ (sum_by (live a.user_id) l == 0) =
        rw⁻¹ (length-select_live a.user_id l) first in
      let mine = first-default_live a (sum_by (live a.user_id) l) here counted in
      let lives = own-live a here in ground arith

  -- A new account is the default where it is the first.
  pub added-IsOneDefault :
      (a : BankAccount)
      → get bank_account_id a.id l ≡ none
      → is_none a.deleted_at ≡ true
      → a.is_default ≡ (length (select (is_live_of a.user_id) l) == 0)
      → IsOneDefault (a ∷ l)
  unfolding sum_by
  added-IsOneDefault a fresh here first = record {
    keyed = (fresh, h.keyed);
    one = λ u.
        (let before = h.one u in
          elim (Bool-cases (a.user_id == u)) [
            | inl e ↦
                subst
                  (λ v.
                    sum_by (default_live v) (a ∷ l)
                    ≡ (if sum_by (live v) (a ∷ l) == 0 then 0 else 1))
                  ((==_iff a.user_id u).0 e) (added_own a here first)
            | inr e ↦ let (none_live, none_default) = other-live u a e in ground arith
          ]);
  }

  -- An account that is not the default is deleted.
  pub removed-IsOneDefault :
      (a a' : BankAccount)
      → get bank_account_id a.id l ≡ some a
      → a.is_default ≡ false
      → is_none a'.deleted_at ≡ false
      → a'.id ≡ a.id
      → IsOneDefault (put bank_account_id a' l)
  removed-IsOneDefault a a' at plain gone same =
      let there = subst (λ n. get bank_account_id n l ≡ some a) (sym same) at in
      record {
        keyed = put-IsKeyed bank_account_id a' l h.keyed;
        one = λ u.
            (let before = h.one u in
              let lives = sum_by-put bank_account_id (live u) a' l there in
              let defaults = sum_by-put bank_account_id (default_live u) a' l there in
              let bound = defaults_le u (put bank_account_id a' l) in
              let no_live = gone-live u a' gone in
              let no_default = gone-default_live u a' gone in
              let was_plain = plain-default_live u a plain in ground arith);
      }
