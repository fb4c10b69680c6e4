-- ===== src/Settlement/Plan.antt =====
-- The wallets that the checks of a request hand on are funded (`IsFunded`).
use paycore_backend.Base.{ℕ, ◌≤◌, ◌≡◌, ◌≢◌, some, arith, ap, subst, sym, ◌∙◌}
use mathlib.Core.Option.{some-injective}
use paycore_backend.Base.Table.{get, IsKeyed, get-find, find-sat}
use paycore_backend.Core.Errors.{ok}
use paycore_backend.Models.Rows.{Wallet}
use paycore_backend.Database.{Db}
use paycore_backend.Repositories.Wallet.{
  wallet_id, is_live_id, is_live_of_user, lock_for_update, get_by_user_id,
}
use paycore_backend.Services.Locking.{movement, lock_pair, lock_funded}
use paycore_backend.Settlement.{IsFunded}

module _ (db : Db) (keyed : IsKeyed wallet_id db.wallets) where
  -- A locked row is the row of its id.
  pub get-lock_for_update :
      (i : ℕ) {w : Wallet}
      → lock_for_update i db ≡ some w
      → (get wallet_id i db.wallets ≡ some w) × (w.id ≡ i)
  unfolding lock_for_update
  get-lock_for_update i {w} e =
      let there = get-find wallet_id (is_live_id i) db.wallets keyed e in
      let sat = find-sat (is_live_id i) db.wallets e in
      let same : w.id ≡ i = ground arith in
      (subst (λ j. get wallet_id j db.wallets ≡ some w) same there, same)

  pub get-get_by_user_id :
      (u : ℕ) {w : Wallet}
      → get_by_user_id u db ≡ some w
      → (get wallet_id w.id db.wallets ≡ some w) × (w.user_id ≡ u)
  unfolding get_by_user_id
  get-get_by_user_id u {w} e =
      let sat = find-sat (is_live_of_user u) db.wallets e in
      (get-find wallet_id (is_live_of_user u) db.wallets keyed e, ground arith)

  pub lock_pair-eq-ok :
      (a b : ℕ) {f g : Wallet}
      → lock_pair a b db ≡ ok (f, g)
      → (lock_for_update a db ≡ some f) × (lock_for_update b db ≡ some g)
  unfolding lock_pair
  lock_pair-eq-ok a b {f} {g} e = ground arith

  lock_funded-eq-ok :
      (a b amount : ℕ) {f g : Wallet}
      → lock_funded a b amount db ≡ ok (movement f g)
      → (lock_pair a b db ≡ ok (f, g)) × (amount ≤ f.balance)
  unfolding lock_funded
  lock_funded-eq-ok a b amount {f} {g} e = ground arith

  -- Two wallets of different ids, locked with a sufficient balance, are funded.
  pub lock_funded-IsFunded :
      (source destination : Wallet) (amount : ℕ) {f g : Wallet}
      → get wallet_id source.id db.wallets ≡ some source
      → source.id ≢ destination.id
      → lock_funded source.id destination.id amount db ≡ ok (movement f g)
      → IsFunded source.user_id amount f g db.books
  lock_funded-IsFunded source destination amount {f} {g} there apart e =
      let (locked, covered) = lock_funded-eq-ok source.id destination.id amount e in
      let (first, second) = lock_pair-eq-ok source.id destination.id locked in
      let (first_there, first_id) = get-lock_for_update source.id first in
      let (second_there, second_id) = get-lock_for_update destination.id second in
      record {
        source_there = simp first_id first_there;
        destination_there = simp second_id second_there;
        owned = ap (λ (w : Wallet). w.user_id) (some-injective f source (sym first_there ∙ there));
        apart = λ same. apart (sym first_id ∙ same ∙ second_id);
        covered = covered;
      }

  -- The wallets of two different users are two wallets.
  pub wallets_apart :
      (u v : ℕ) (a b : Wallet)
      → get_by_user_id u db ≡ some a
      → get_by_user_id v db ≡ some b
      → u ≢ v
      → a.id ≢ b.id
  wallets_apart u v a b ea eb apart same =
      let (there_a, user_a) = get-get_by_user_id u ea in
      let (there_b, user_b) = get-get_by_user_id v eb in
      let one =
        some-injective a b
          (sym there_a ∙ subst (λ i. get wallet_id i db.wallets ≡ some b) (sym same) there_b) in
      apart (sym user_a ∙ ap (λ (w : Wallet). w.user_id) one ∙ user_b)
