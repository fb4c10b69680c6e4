-- ===== src/Settlement/Conservation.antt =====
-- No request between two wallets creates or destroys money.
use paycore_backend.Base.{ℕ, ◌≡◌, Option, String}
use paycore_backend.Base.Table.{IsKeyed}
use paycore_backend.Models.Transaction.{transfer, merchant_payment}
use paycore_backend.Models.Rows.{User}
use paycore_backend.Session.{Env, Session, IsClean}
use paycore_backend.Repositories.Wallet.{wallet_id}
use paycore_backend.Services.Transfer.{Recipient, initiate_transfer}
use paycore_backend.Services.MerchantPayment.{initiate_payment}
use paycore_backend.Books.Total.{total_balance}
use paycore_backend.Settlement.Laws.{Settles-total_balance}
use paycore_backend.Settlement.Transfer.{initiate_transfer-Settles}
use paycore_backend.Settlement.MerchantPayment.{initiate_payment-Settles}

module _ (env : Env) (amount : ℕ) (key : Option String) (s : Session) (clean : IsClean s)
    (keyed : IsKeyed wallet_id s.committed.wallets) where
  -- On a session without pending writes, whose wallets have distinct ids, a transfer request leaves
  -- the sum of all committed balances as it was, whatever its outcome.
  pub total_balance-initiate_transfer :
      (sender : User) (to : Recipient)
      → total_balance (initiate_transfer env sender to amount key s).1.committed.books
        ≡ total_balance s.committed.books
  total_balance-initiate_transfer sender to =
      Settles-total_balance env sender.id transfer amount key s
        (initiate_transfer-Settles env sender to amount key s clean keyed)

  -- On a session without pending writes, whose wallets have distinct ids, a payment request leaves
  -- the sum of all committed balances as it was, whatever its outcome.
  pub total_balance-initiate_payment :
      (payer : User) (merchant : ℕ)
      → total_balance (initiate_payment env payer merchant amount key s).1.committed.books
        ≡ total_balance s.committed.books
  total_balance-initiate_payment payer merchant =
      Settles-total_balance env payer.id merchant_payment amount key s
        (initiate_payment-Settles env payer merchant amount key s clean keyed)
