-- ===== src/Listings.antt =====
-- What the paginated queries (Repositories/Listing) show of a user's transactions.
use paycore_backend.Base.{
  ℕ, zero, suc, ◌+◌, ◌≡◌, ◌↔◌, Bool, true, none, some, inl, inr, Bool-cases, subst, List, [], ◌∷◌,
  ◌++◌, Option, arith, refl, ap, ◌∙◌, sym,
}
use paycore_backend.Base.Table.{take, drop, length, select}
use paycore_backend.Models.Transaction.{
  Transaction, TransactionType, TransactionStatus, is_type, is_status,
}
use paycore_backend.Database.{Db}
use paycore_backend.Repositories.Listing.{
  page, get_by_user, is_of_user, type_matches, status_matches,
}

suc_plus : (m n : ℕ) → suc (m + n) ≡ suc m + n
suc_plus m n = omega arith

module _ {ℓ} {A : Type ℓ} where
  take-[] : (n : ℕ) → take {A = A} n [] ≡ []
  unfolding take
  take-[] zero = refl
  take-[] (suc n) = refl

  drop-[] : (n : ℕ) → drop {A = A} n [] ≡ []
  unfolding drop
  drop-[] zero = refl
  drop-[] (suc n) = refl

  take-++ : (n k : ℕ) (l : List A) → take n l ++ take k (drop n l) ≡ take (n + k) l
  unfolding take drop
  take-++ zero k l = ap (λ i. take i l) (omega arith)
  take-++ (suc n) k [] = take-[] k ∙ sym (take-[] (suc n + k))
  take-++ (suc n) k (x ∷ l) =
      ap (λ r. x ∷ r) (take-++ n k l) ∙ ap (λ i. take i (x ∷ l)) (suc_plus n k)

  drop-drop : (m n : ℕ) (l : List A) → drop n (drop m l) ≡ drop (m + n) l
  unfolding drop
  drop-drop zero n l = ap (λ i. drop i l) (omega arith)
  drop-drop (suc m) n [] = drop-[] n ∙ sym (drop-[] (suc m + n))
  drop-drop (suc m) n (x ∷ l) = drop-drop m n l ∙ ap (λ i. drop i (x ∷ l)) (suc_plus m n)

  take-length : (l : List A) → take (length l) l ≡ l
  unfolding take length
  take-length [] = refl
  take-length (x ∷ l) = ap (λ r. x ∷ r) (take-length l)

module _ {A : Type 0} where
  -- The second list is what of the first satisfies `P`, in the same order.
  pub data Lists (P : A → Type 0) : List A → List A → Type 0 where
    done : Lists P [] []
    shown : {l r : List A} (x : A) → P x → Lists P l r → Lists P (x ∷ l) (x ∷ r)
    hidden : {l r : List A} (x : A) → ¬ P x → Lists P l r → Lists P (x ∷ l) r

  select-Lists :
      (p : A → Bool) (P : A → Type 0)
      → ((x : A) → (p x ≡ true) ↔ P x)
      → (l : List A) → Lists P l (select p l)
  unfolding select
  select-Lists p P same [] = done
  select-Lists p P same (x ∷ l) = elim (Bool-cases (p x)) [
    | inl e ↦ rw e (shown x ((same x).0 e) (select-Lists p P same l))
    | inr e ↦
        rw e (hidden x (λ h. let both = (same x).1 h in absurd (cc)) (select-Lists p P same l))
  ]

is_type_iff : (a b : TransactionType) → (is_type a b ≡ true) ↔ (a ≡ b)
is_type_iff a b = ground arith

is_status_iff : (a b : TransactionStatus) → (is_status a b ≡ true) ↔ (a ≡ b)
is_status_iff a b = ground arith

-- A filter that is not given lets everything through.
abbrev pub Given : {B : Type 0} → Option B → B → Type 0
Given none b = Unit
Given (some a) b = b ≡ a

-- A transaction that the user initiated, of the type and the status that are asked for.
pub record IsAsked (user_id : ℕ) (type : Option TransactionType) (status : Option TransactionStatus)
    (t : Transaction) : Type 0 where
  pub initiated : t.initiated_by_user_id ≡ user_id
  pub of_type : Given type t.type
  pub in_status : Given status t.status

type_matches_iff :
    (type : Option TransactionType) (t : Transaction)
    → (type_matches type t ≡ true) ↔ Given type t.type
type_matches_iff none t = (λ e. tt, λ e. refl)
type_matches_iff (some a) t = is_type_iff t.type a

status_matches_iff :
    (status : Option TransactionStatus) (t : Transaction)
    → (status_matches status t ≡ true) ↔ Given status t.status
status_matches_iff none t = (λ e. tt, λ e. refl)
status_matches_iff (some a) t = is_status_iff t.status a

is_of_user_iff :
    (user_id : ℕ) (type : Option TransactionType) (status : Option TransactionStatus)
    (t : Transaction)
    → (is_of_user user_id type status t ≡ true) ↔ IsAsked user_id type status t
is_of_user_iff user_id type status t = (
  λ e. record {
    initiated = ground arith;
    of_type =
        (type_matches_iff type t).0 (let e1 : type_matches type t ≡ true = ground arith in e1);
    in_status =
        (status_matches_iff status t).0
          (let e2 : status_matches status t ≡ true = ground arith in e2);
  },
  λ h.
      let mine = h.initiated in
      let typed = (type_matches_iff type t).1 h.of_type in
      let stands = (status_matches_iff status t).1 h.in_status in ground arith,
)

-- One page of the reported total is those transactions of the table, in its order (newest first), that
-- the user initiated and that are of the type and the status asked for, where these are given; and the
-- page of `n` from an offset, followed by the page of the next `k`, is the page of both from it.
pub get_by_user-pages :
    (user_id n k offset : ℕ) (type : Option TransactionType) (status : Option TransactionStatus)
    (db : Db)
    → ((get_by_user user_id n offset type status db).0
          ++ (get_by_user user_id k (offset + n) type status db).0
        ≡ (get_by_user user_id (n + k) offset type status db).0)
      × Lists
          (IsAsked user_id type status)
          db.transactions
          (get_by_user user_id (get_by_user user_id n offset type status db).1 0 type status db).0
unfolding get_by_user page drop
get_by_user-pages user_id n k offset type status db =
    let rows = select (is_of_user user_id type status) db.transactions in
    (
      ap (λ l. take n (drop offset rows) ++ take k l) (sym (drop-drop offset n rows))
          ∙ take-++ n k (drop offset rows),
      subst (Lists (IsAsked user_id type status) db.transactions) (sym (take-length rows)) (
          select-Lists (is_of_user user_id type status) (IsAsked user_id type status)
            (is_of_user_iff user_id type status) db.transactions),
    )
