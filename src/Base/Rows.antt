-- ===== src/Base/Rows.antt =====
-- Lists of rows in the order of a query.
use paycore_backend.Base.{
  ℕ, zero, suc, ◌+◌, ◌≡◌, refl, Bool, true, List, [], ◌∷◌, ◌++◌, arith, Bool-cases, inl, inr, some,
  ◌==◌,
}
use paycore_backend.Base.Table.{All, take, drop, select, length, oldest_first, get, IsKeyed}

module _ {ℓ} {A : Type ℓ} where
  pub All-map {κ κ'} :
      (P : A → Type κ) (Q : A → Type κ') (l : List A) → ((x : A) → P x → Q x) → All P l → All Q l
  All-map P Q [] f h = tt
  All-map P Q (x ∷ l) f h = (f x h.0, All-map P Q l f h.1)

  -- What a query returns satisfies its condition, and keeps what all rows satisfy.
  pub select-All {κ} :
      (P : A → Type κ) (p : A → Bool) (l : List A)
      → All P l
      → All (λ x. P x × (p x ≡ true)) (select p l)
  unfolding select
  select-All P p [] h = tt
  select-All P p (x ∷ l) h = elim (Bool-cases (p x)) [
    | inl e ↦ rw e ((h.0, e), select-All P p l h.1)
    | inr e ↦ rw e (select-All P p l h.1)
  ]

  pub select-sat : (p : A → Bool) (l : List A) → All (λ x. p x ≡ true) (select p l)
  unfolding select
  select-sat p [] = tt
  select-sat p (x ∷ l) = elim (Bool-cases (p x)) [
    | inl e ↦ rw e (e, select-sat p l)
    | inr e ↦ rw e (select-sat p l)
  ]

  pub take-All {κ} : (P : A → Type κ) (n : ℕ) (l : List A) → All P l → All P (take n l)
  unfolding take
  take-All P zero l h = tt
  take-All P (suc n) [] h = tt
  take-All P (suc n) (x ∷ l) h = (h.0, take-All P n l h.1)

  pub drop-All {κ} : (P : A → Type κ) (n : ℕ) (l : List A) → All P l → All P (drop n l)
  unfolding drop
  drop-All P zero l h = h
  drop-All P (suc n) [] h = tt
  drop-All P (suc n) (x ∷ l) h = drop-All P n l h.1

  All-++ {κ} : (P : A → Type κ) (l m : List A) → All P l → All P m → All P (l ++ m)
  All-++ P [] m h k = k
  All-++ P (x ∷ l) m h k = (h.0, All-++ P l m h.1 k)

  pub oldest_first-All {κ} : (P : A → Type κ) (l : List A) → All P l → All P (oldest_first l)
  unfolding oldest_first
  oldest_first-All P [] h = tt
  oldest_first-All P (x ∷ l) h =
      All-++ P (oldest_first l) (x ∷ []) (oldest_first-All P l h.1) (h.0, tt)

  length-++ : (l m : List A) → length (l ++ m) ≡ length l + length m
  unfolding length
  length-++ [] m = omega arith
  length-++ (x ∷ l) m = let more = length-++ l m in omega arith

  pub length-oldest_first : (l : List A) → length (oldest_first l) ≡ length l
  unfolding oldest_first length
  length-oldest_first [] = refl
  length-oldest_first (x ∷ l) =
      let more = length-oldest_first l in
      let split = length-++ (oldest_first l) (x ∷ []) in omega arith

  -- In a keyed table every row is the row of its key.
  pub get-All : (key : A → ℕ) (l : List A) → IsKeyed key l → All (λ x. get key (key x) l ≡ some x) l
  unfolding get
  get-All key [] h = tt
  get-All key (x ∷ l) h = (
    ground arith,
    All-map (λ y. get key (key y) l ≡ some y) (λ y. get key (key y) (x ∷ l) ≡ some y) l
        (λ y e. elim (Bool-cases (key x == key y)) [
          | inl q ↦ absurd (ground arith)
          | inr q ↦ rw q e
        ])
        (get-All key l h.1),
  )
