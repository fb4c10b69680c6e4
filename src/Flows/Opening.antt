-- ===== src/Flows/Opening.antt =====
-- Opening a wallet (Services/Wallet) and starting a funding (Services/WalletFunding) move no money.
use paycore_backend.Base.{
  ℕ, ◌≡◌, String, Option, none, some, List, [], ◌∷◌, arith, refl, false, true, inl, inr, Bool-cases,
}
use paycore_backend.Base.Table.{get, find}
use paycore_backend.Models.Transaction.{Transaction}
use paycore_backend.Models.Rows
use paycore_backend.Session.{Env, Session, commit, query, ◌>>=◌}
use paycore_backend.Repositories.Wallet
use paycore_backend.Repositories.Transaction.{conflicts, create_lem}
use paycore_backend.Services.Wallet as WalletService
use paycore_backend.Services.WalletFunding.{
  initiate_funding, funding_wallet, start_funding, record_funding, funding_record, or_default,
}
use paycore_backend.Books.Openings.{inserted-IsSound, opened-IsSound}
use paycore_backend.Settlement.Laws.{get-conflicts}
use paycore_backend.Flows.{Sound, resume-Sound, committed-Sound}

-- A wallet that clashes with none has a new primary key.
get-wallet_conflicts :
    (w : Rows.Wallet) (rows : List Rows.Wallet)
    → Wallet.conflicts w rows ≡ false
    → get Wallet.wallet_id w.id rows ≡ none
unfolding Wallet.conflicts find get
get-wallet_conflicts w [] e = refl
get-wallet_conflicts w (x ∷ rows) e = ground (arith, get-wallet_conflicts w rows)

module _ (env : Env) where
  record_funding-Sound :
      (payer : Rows.User) (wallet : Rows.Wallet) (amount : ℕ) (key : Option String)
      (reference : String) (answer : Option (Option String × Option String)) (s : Session)
      → Sound s
      → Sound (record_funding env payer wallet amount key reference answer s).1
  unfolding record_funding funding_record
  record_funding-Sound payer wallet amount key reference none s h = h
  record_funding-Sound payer wallet amount key reference (some (url, provider)) s h =
      let new =
        funding_record env (env.uuid s.drawn) reference (or_default url "")
          (or_default provider reference) payer wallet amount key in
      rw create_lem (elim (Bool-cases (conflicts new s.db.transactions)) [
        | inl e ↦ rw e (record { seen = h.seen; durable = h.durable })
        | inr e ↦ rw e (
            let inserted =
              inserted-IsSound s.db.books h.seen new (get-conflicts new s.db.transactions e)
                (λ i. refl) (inr (inl refl)) in
            record { seen = inserted; durable = inserted })
      ])

  start_funding-Sound :
      (payer : Rows.User) (wallet : Rows.Wallet) (amount : ℕ) (key : Option String)
      (used : Option Transaction) (s : Session)
      → Sound s
      → Sound (start_funding env payer wallet amount key used s).1
  unfolding start_funding
  start_funding-Sound payer wallet amount key (some t) s h = h
  start_funding-Sound payer wallet amount key none s h =
      record_funding-Sound payer wallet amount key _ _ _
        (record { seen = h.seen; durable = h.durable })

  -- Starting a funding on a session with sound books keeps them sound, whether Paystack answers or
  -- not.
  pub initiate_funding-Sound :
      (payer : Rows.User) (amount : ℕ) (key : Option String) (s : Session)
      → Sound s
      → Sound (initiate_funding env payer amount key s).1
  unfolding initiate_funding
  initiate_funding-Sound payer amount key s h =
      resume-Sound (query (funding_wallet payer amount) s) _ h
        λ wallet e. (start_funding-Sound payer wallet amount key _ s h)

  create-Sound :
      (user_id : ℕ) (currency : String) (s : Session)
      → Sound s
      → Sound (Wallet.create env user_id currency s).1
  unfolding Wallet.create Wallet.insert
  create-Sound user_id currency s h =
      let new : Rows.Wallet = record {
        id = env.uuid s.drawn;
        user_id = user_id;
        currency = currency;
        balance = 0;
        is_active = true;
        deleted_at = none;
      } in
      elim (Bool-cases (Wallet.conflicts new s.db.wallets)) [
        | inl e ↦ rw e (record { seen = h.seen; durable = h.durable })
        | inr e ↦ rw e (record {
          seen =
              opened-IsSound s.db.books h.seen new (get-wallet_conflicts new s.db.wallets e) refl;
          durable = h.durable;
        })
      ]

  pub wallet-Sound :
      (user_id : ℕ) (currency : String) (s : Session)
      → Sound s
      → Sound (WalletService.create_wallet env user_id currency s).1
  unfolding WalletService.create_wallet
  wallet-Sound user_id currency s h =
      resume-Sound (query (WalletService.require_no_wallet user_id) s)
        (λ _. Wallet.create env user_id currency) h (λ _ _. create-Sound user_id currency s h)

  -- Opening a wallet on a session with sound books, and COMMIT as registration does, keeps them
  -- sound.
  pub create_wallet-Sound :
      (user_id : ℕ) (currency : String) (s : Session)
      → Sound s
      → Sound ((WalletService.create_wallet env user_id currency >>= λ _. commit) s).1
  create_wallet-Sound user_id currency s h =
      let opened = wallet-Sound user_id currency s h in
      resume-Sound (WalletService.create_wallet env user_id currency s) _ opened
        λ w e. (committed-Sound _ opened)
