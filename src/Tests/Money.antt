-- ===== src/Tests/Money.antt =====
-- The theorems on the movement of money at concrete inputs.
use paycore_backend.Base.{some, refl}
use paycore_backend.Models.Transaction.{transfer, merchant_payment}
use paycore_backend.Session.{Session, request, commit, ◌>>=◌}
use paycore_backend.Services.Wallet.{create_wallet}
use paycore_backend.Services.WalletFunding.{initiate_funding}
use paycore_backend.Flows.Opening.{create_wallet-Sound, initiate_funding-Sound}
use paycore_backend.Services.Transfer.{by_id, initiate_transfer}
use paycore_backend.Services.MerchantPayment.{initiate_payment}
use paycore_backend.Services.Withdrawal.{initiate_withdrawal}
use paycore_backend.Services.Withdrawal.Payout.{process_transfer_result}
use paycore_backend.Services.Withdrawal.Execution.{execute_payout}
use paycore_backend.Services.PaystackWebhook.{ChargeData, process_charge_success}
use paycore_backend.Books.{IsSound}
use paycore_backend.System.{
  start, next, transfer_requested, withdrawal_requested, payout_reported, charge_reported,
  Reach-IsSound,
}
use paycore_backend.Settlement.{Settles}
use paycore_backend.Settlement.Transfer.{initiate_transfer-Settles}
use paycore_backend.Settlement.MerchantPayment.{initiate_payment-Settles}
use paycore_backend.Flows.{Sound}
use paycore_backend.Flows.Withdrawal.{Holds, initiate_withdrawal-Holds}
use paycore_backend.Flows.Funding.{process_charge_success-Sound}
use paycore_backend.Flows.Payout.{process_transfer_result-Sound}
use paycore_backend.Flows.Execution.{execute_payout-Sound}
use paycore_backend.Tests.Bank.{env, alice, bob, bank, books-IsSound, bank-Sound}

-- Alice sends Bob 300, Paystack reports her payout and Bob's payment, and Bob withdraws.
abbrev after_transfer : Session
after_transfer = (request (initiate_transfer env alice (by_id 2) 300 (some "k1")) bank).1

abbrev after_payout : Session
after_payout =
    (request (process_transfer_result env "transfer.success" "W1" "TRF") after_transfer).1

abbrev bobs_charge : ChargeData
bobs_charge = record { status = "success"; reference = "F2"; amount = 500 }

abbrev after_charge : Session
after_charge = (request (process_charge_success env bobs_charge) after_payout).1

abbrev after_withdrawal : Session
after_withdrawal = (request (initiate_withdrawal env bob 31 600) after_charge).1

Reach-IsSound_example : IsSound after_withdrawal.committed.books
Reach-IsSound_example = Reach-IsSound {s = bank} books-IsSound (
    next
      (next
        (next (next start (transfer_requested env alice (by_id 2) 300 (some "k1")))
          (payout_reported env "transfer.success" "W1" "TRF"))
        (charge_reported env bobs_charge))
      (withdrawal_requested env bob 31 600))

initiate_transfer-Settles_example :
    Settles env 1 transfer 300
      (some "k1")
      bank
      (initiate_transfer env alice (by_id 2) 300 (some "k1") bank).0
      (initiate_transfer env alice (by_id 2) 300 (some "k1") bank).1
initiate_transfer-Settles_example =
    initiate_transfer-Settles env alice (by_id 2) 300 (some "k1") bank refl
      books-IsSound.wallets_keyed

initiate_payment-Settles_example :
    Settles env 1 merchant_payment 300
      (some "k1")
      bank
      (initiate_payment env alice 21 300 (some "k1") bank).0
      (initiate_payment env alice 21 300 (some "k1") bank).1
initiate_payment-Settles_example =
    initiate_payment-Settles env alice 21 300 (some "k1") bank refl books-IsSound.wallets_keyed

initiate_withdrawal-Holds_example :
    Holds env bob 31 200 bank
      (initiate_withdrawal env bob 31 200 bank).0
      (initiate_withdrawal env bob 31 200 bank).1
initiate_withdrawal-Holds_example =
    initiate_withdrawal-Holds env bob 31 200 bank refl books-IsSound.wallets_keyed

process_charge_success-Sound_example : Sound (process_charge_success env bobs_charge bank).1
process_charge_success-Sound_example = process_charge_success-Sound env bobs_charge bank bank-Sound

process_transfer_result-Sound_example :
    Sound (process_transfer_result env "transfer.failed" "W1" "TRF" bank).1
process_transfer_result-Sound_example =
    process_transfer_result-Sound env "transfer.failed" "W1" "TRF" bank bank-Sound

execute_payout-Sound_example : Sound (execute_payout env 103 bank).1
execute_payout-Sound_example = execute_payout-Sound env 103 bank bank-Sound

create_wallet-Sound_example : Sound ((create_wallet env 3 "NGN" >>= λ _. commit) bank).1
create_wallet-Sound_example = create_wallet-Sound env 3 "NGN" bank bank-Sound

initiate_funding-Sound_example : Sound (initiate_funding env alice 20_000 (some "k2") bank).1
initiate_funding-Sound_example = initiate_funding-Sound env alice 20_000 (some "k2") bank bank-Sound
