-- ===== src/Base/Table.antt =====
-- A database table: a list of rows, newest first. `find` is a query for one row, `select` a WHERE
-- clause, `put` an UPDATE by primary key, and consing a row an INSERT.
use paycore_backend.Base.{
  ℕ, zero, suc, ◌+◌, ◌≡◌, refl, ◌≢◌, ◌≤◌, Bool, true, false, Option, none, some, List, [], ◌∷◌,
  ◌++◌, arith, ◌==◌, if◌then◌else◌, Bool-cases, inl, inr, ==_iff, subst, ◌∙◌,
}

module _ {ℓ} {A : Type ℓ} where
  unfoldable pub find : (A → Bool) → List A → Option A
  find p [] = none
  find p (x ∷ l) = if p x then some x else find p l

  unfoldable pub select : (A → Bool) → List A → List A
  select p [] = []
  select p (x ∷ l) = let rest = select p l in if p x then x ∷ rest else rest

  unfoldable pub length : List A → ℕ
  length [] = 0
  length (x ∷ l) = suc (length l)

  -- LIMIT.
  unfoldable pub take : ℕ → List A → List A
  take zero l = []
  take (suc n) [] = []
  take (suc n) (x ∷ l) = x ∷ take n l

  -- OFFSET.
  unfoldable pub drop : ℕ → List A → List A
  drop zero l = l
  drop (suc n) [] = []
  drop (suc n) (x ∷ l) = drop n l

  -- `l[i]`, `none` where Python raises.
  unfoldable pub get_elem? : List A → ℕ → Option A
  get_elem? [] i = none
  get_elem? (x ∷ l) zero = some x
  get_elem? (x ∷ l) (suc i) = get_elem? l i

  -- ORDER BY created_at ASC of rows that are newest first.
  unfoldable pub oldest_first : List A → List A
  oldest_first [] = []
  oldest_first (x ∷ l) = oldest_first l ++ (x ∷ [])

  -- SUM of a column.
  unfoldable pub sum_by : (A → ℕ) → List A → ℕ
  sum_by f [] = 0
  sum_by f (x ∷ l) = f x + sum_by f l

  abbrev pub All {κ} : (A → Type κ) → List A → Type κ
  All P [] = Unit
  All P (x ∷ l) = P x × All P l

  -- The row that a query returns satisfies its condition.
  pub find-sat : (p : A → Bool) (l : List A) {a : A} → find p l ≡ some a → p a ≡ true
  unfolding find
  find-sat p [] e = cc
  find-sat p (x ∷ l) {a} e = ground (arith, find-sat p l {a = a})

  -- A query that selects one row finds it.
  pub find-select :
      (p : A → Bool) (l : List A) {a : A} {r : List A} → select p l ≡ a ∷ r → find p l ≡ some a
  unfolding find select
  find-select p [] e = cc
  find-select p (x ∷ l) {a} {r} e = ground (arith, find-select p l {a = a} {r = r})

  -- A row that one query finds fails the condition of a query that finds none.
  pub find-unsat :
      (p q : A → Bool) (l : List A) {a : A} → find p l ≡ some a → find q l ≡ none → q a ≡ false
  unfolding find
  find-unsat p q [] e h = absurd (cc)
  find-unsat p q (x ∷ l) {a} e h = ground (arith, find-unsat p q l {a = a})

  find-All_head {κ} :
      (P : A → Type κ) (b : Bool) (x : A) (o : Option A) {a : A}
      → P x
      → (o ≡ some a → P a)
      → (if b then some x else o) ≡ some a
      → P a
  find-All_head P true x o px ih e = subst P (cc) px
  find-All_head P false x o px ih e = ih e

  pub find-All {κ} :
      (P : A → Type κ) (p : A → Bool) (l : List A) {a : A} → All P l → find p l ≡ some a → P a
  unfolding find
  find-All P p [] h e = absurd (cc)
  find-All P p (x ∷ l) h e = find-All_head P (p x) x (find p l) h.0 (λ q. find-All P p l h.1 q) e

  -- Queries by primary key.
  module _ (key : A → ℕ) where
    unfoldable pub get : ℕ → List A → Option A
    get k [] = none
    get k (x ∷ l) = if key x == k then some x else get k l

    unfoldable pub put : A → List A → List A
    put a [] = []
    put a (x ∷ l) = if key x == key a then a ∷ l else x ∷ put a l

    -- No two rows have one primary key.
    abbrev pub IsKeyed : List A → Type ℓ
    IsKeyed [] = Unit {ℓ}
    IsKeyed (x ∷ l) = (get (key x) l ≡ none) × IsKeyed l

    pub get-key : (k : ℕ) (l : List A) {a : A} → get k l ≡ some a → key a ≡ k
    unfolding get
    get-key k [] e = cc
    get-key k (x ∷ l) {a} e = ground (arith, get-key k l {a = a})

    pub get-put_self :
        (a : A) (l : List A) {old : A} → get (key a) l ≡ some old → get (key a) (put a l) ≡ some a
    unfolding get put
    get-put_self a [] e = cc
    get-put_self a (x ∷ l) {old} e = elim (Bool-cases (key x == key a)) [
      | inl h ↦ rw h (ground arith)
      | inr h ↦ rw (h, h) (get-put_self a l {old = old} (ground arith))
    ]

    pub get-put_ne : (k : ℕ) (a : A) (l : List A) → k ≢ key a → get k (put a l) ≡ get k l
    unfolding get put
    get-put_ne k a [] h = refl
    get-put_ne k a (x ∷ l) h = elim (Bool-cases (key x == key a)) [
      | inl e ↦ rw e (ground arith)
      | inr e ↦ rw e (ground (arith, get-put_ne k a l h))
    ]

    -- What is at a key after an UPDATE of a row that is there.
    pub get-put :
        (k : ℕ) (a : A) (l : List A) {old : A}
        → get (key a) l ≡ some old
        → get k (put a l) ≡ (if key a == k then some a else get k l)
    get-put k a l {old} e = elim (Bool-cases (key a == k)) [
      | inl h ↦ rw h (
          subst (λ j. get j (put a l) ≡ some a) ((==_iff (key a) k).0 h)
            (get-put_self a l {old = old} e))
      | inr h ↦ rw h (get-put_ne k a l (λ q. ground arith))
    ]

    pub put-IsKeyed : (a : A) (l : List A) → IsKeyed l → IsKeyed (put a l)
    unfolding put
    put-IsKeyed a [] h = tt
    put-IsKeyed a (x ∷ l) h = elim (Bool-cases (key x == key a)) [
      | inl e ↦ rw e (subst (λ k. get k l ≡ none) ((==_iff (key x) (key a)).0 e) h.0, h.1)
      | inr e ↦ rw e (get-put_ne (key x) a l (λ q. ground arith) ∙ h.0, put-IsKeyed a l h.1)
    ]

    -- In a keyed table the row that any query returns is the row of its key.
    pub get-find :
        (p : A → Bool) (l : List A) {a : A} → IsKeyed l → find p l ≡ some a → get (key a) l ≡ some a
    unfolding find get
    get-find p [] h e = cc
    get-find p (x ∷ l) {a} h e = ground (arith, get-find p l {a = a} h.1)

    -- In a keyed table a query finds the row that took the place of the one that it found before.
    pub find-put :
        (p : A → Bool) (a : A) (l : List A) {old : A}
        → IsKeyed l
        → find p l ≡ some old
        → key a ≡ key old
        → p a ≡ true
        → find p (put a l) ≡ some a
    unfolding find put get
    find-put p a [] h e same pa = absurd (cc)
    find-put p a (x ∷ l) {old} h e same pa = elim (Bool-cases (p x)) [
      | inl q ↦ ground arith
      | inr q ↦ ground (arith, find-put p a l {old = old} h.1, get-find p l {a = old} h.1)
    ]

    -- A query finds the same row after an UPDATE of another that leaves the query's condition as it was.
    pub find-put_ne :
        (p : A → Bool) (a : A) (l : List A) {old row : A}
        → get (key a) l ≡ some old
        → p a ≡ p old
        → find p l ≡ some row
        → key a ≢ key row
        → find p (put a l) ≡ some row
    unfolding find put get
    find-put_ne p a [] at same e ne = absurd (cc)
    find-put_ne p a (x ∷ l) {old} {row} at same e ne = elim (Bool-cases (key x == key a)) [
      | inl q ↦ ground arith
      | inr q ↦ ground (arith, find-put_ne p a l {old = old} {row = row})
    ]

    -- An UPDATE of a row that the query does not want, before and after.
    pub find-put_out :
        (p : A → Bool) (a : A) (l : List A) {old : A}
        → get (key a) l ≡ some old
        → p a ≡ false
        → p old ≡ false
        → find p (put a l) ≡ find p l
    unfolding find put get
    find-put_out p a [] at new was = cc
    find-put_out p a (x ∷ l) {old} at new was = elim (Bool-cases (key x == key a)) [
      | inl q ↦ ground arith
      | inr q ↦ ground (arith, find-put_out p a l {old = old})
    ]

    -- A sum is at least what one row, or two rows of different keys, add to it.
    pub sum_by-get : (f : A → ℕ) (i : ℕ) (l : List A) {a : A} → get i l ≡ some a → f a ≤ sum_by f l
    unfolding get sum_by
    sum_by-get f i [] e = absurd (cc)
    sum_by-get f i (x ∷ l) {a} e = ground (arith, sum_by-get f i l {a = a})

    pub sum_by-get_two :
        (f : A → ℕ) (i j : ℕ) (l : List A) {a b : A}
        → get i l ≡ some a
        → get j l ≡ some b
        → i ≢ j
        → f a + f b ≤ sum_by f l
    unfolding get sum_by
    sum_by-get_two f i j [] e h ne = absurd (cc)
    sum_by-get_two f i j (x ∷ l) {a} {b} e h ne = ground (
      arith,
      sum_by-get f i l {a = a},
      sum_by-get f j l {a = b},
      sum_by-get_two f i j l {a = a} {b = b},
    )

    -- A column's sum follows an UPDATE.
    pub sum_by-put :
        (f : A → ℕ) (a : A) (l : List A) {old : A}
        → get (key a) l ≡ some old
        → sum_by f (put a l) + f old ≡ sum_by f l + f a
    unfolding get put sum_by
    sum_by-put f a [] e = cc
    sum_by-put f a (x ∷ l) {old} e = ground (arith, sum_by-put f a l {old = old})

    pub put-All {κ} : (P : A → Type κ) (a : A) (l : List A) → P a → All P l → All P (put a l)
    unfolding put
    put-All P a [] pa h = tt
    put-All P a (x ∷ l) pa h = elim (Bool-cases (key x == key a)) [
      | inl e ↦ rw e (pa, h.1)
      | inr e ↦ rw e (h.0, put-All P a l pa h.1)
    ]
