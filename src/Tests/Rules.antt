-- ===== src/Tests/Rules.antt =====
-- The theorems on idempotency keys, limits and totals at concrete inputs.
use paycore_backend.Base.{◌≡◌, ◌≢◌, ◌≤◌, none, some, refl}
use paycore_backend.Base.Table.{find, select, length, sum_by}
use paycore_backend.Core.Errors.{ok}
use paycore_backend.Models.Transaction.{Transaction, transfer, merchant_payment}
use paycore_backend.Repositories.Wallet.{get_by_user_id, lock_for_update, update_balance}
use paycore_backend.Repositories.Transaction.{
  get_by_key_if_given, get_by_idempotency_key, create, conflicts, clashes, insert_transaction,
}
use paycore_backend.Repositories.People.{get_user_by_id, get_merchant_by_id}
use paycore_backend.Repositories.Ledger.{add_entry}
use paycore_backend.Repositories.Fraud.{
  get_daily_outgoing_sum, count_recent_transfers, count_distinct_recipients_recently,
  count_destinations,
}
use paycore_backend.Services.Fraud.{
  single_limit, tier_daily_limit, today_start, check_transfer, enforce_kyc_single_limit,
  enforce_daily_limit, enforce_no_duplicate_transfer, maybe_flag_rapid_transfers,
  check_merchant_payment, maybe_flag_merchant_payment,
}
use paycore_backend.Services.Locking.{lock_pair, lock_funded}
use paycore_backend.Services.Posting.{movement_record, write_movement, post_movement}
use paycore_backend.Services.Audit
use paycore_backend.Repositories.WebhookDelivery.{create_delivery}
use paycore_backend.Services.WebhookDelivery.{create_and_enqueue}
use paycore_backend.Services.Transfer
use paycore_backend.Services.MerchantPayment
use paycore_backend.Books.Total.{total_balance}
use paycore_backend.Settlement.{next_record}
use paycore_backend.Settlement.Conservation.{
  total_balance-initiate_transfer, total_balance-initiate_payment,
}
use paycore_backend.Settlement.Idempotency.{
  Answers, initiate_transfer-replays, initiate_payment-replays,
}
use paycore_backend.Settlement.Limits.{initiate_transfer-limits, initiate_payment-limits}
use paycore_backend.Tests.Bank.{env, alice, bank, books, own_row, books-IsSound, purse}

total_balance-initiate_transfer_example :
    total_balance
      (Transfer.initiate_transfer env alice (Transfer.by_id 2) 300 none bank).1.committed.books
    ≡ total_balance books
total_balance-initiate_transfer_example =
    total_balance-initiate_transfer env 300 none bank refl books-IsSound.wallets_keyed alice
      (Transfer.by_id 2)

total_balance-initiate_payment_example :
    total_balance (MerchantPayment.initiate_payment env alice 21 300 none bank).1.committed.books
    ≡ total_balance books
total_balance-initiate_payment_example =
    total_balance-initiate_payment env 300 none bank refl books-IsSound.wallets_keyed alice 21

k0-used : get_by_key_if_given (some "k0") bank.db ≡ some own_row
unfolding get_by_key_if_given get_by_idempotency_key find
k0-used = refl

initiate_transfer-replays_example :
    ((Transfer.initiate_transfer env alice (Transfer.by_id 2) 300 (some "k0") bank).1 ≡ bank)
    × Answers own_row
        (Transfer.initiate_transfer env alice (Transfer.by_id 2) 300 (some "k0") bank).0
initiate_transfer-replays_example =
    initiate_transfer-replays env 300 (some "k0") bank own_row k0-used alice (Transfer.by_id 2)

initiate_payment-replays_example :
    ((MerchantPayment.initiate_payment env alice 21 300 (some "k0") bank).1 ≡ bank)
    × Answers own_row (MerchantPayment.initiate_payment env alice 21 300 (some "k0") bank).0
initiate_payment-replays_example =
    initiate_payment-replays env 300 (some "k0") bank own_row k0-used alice 21

abbrev sent : Transaction
sent = next_record env 1 transfer 300 none bank (purse 11 1 800) (purse 12 2 300)

abbrev paid : Transaction
paid = next_record env 1 merchant_payment 300 none bank (purse 11 1 800) (purse 12 2 300)

unused : get_by_key_if_given none bank.committed ≡ none
unfolding get_by_key_if_given
unused = refl

transfer-goes-through :
    (Transfer.initiate_transfer env alice (Transfer.by_id 2) 300 none bank).0 ≡ ok sent
unfolding Transfer.initiate_transfer Transfer.transfer_plan Transfer.resolve_wallets
    Transfer.check_and_lock Transfer.find_recipient get_user_by_id get_by_user_id
    get_by_key_if_given find select check_transfer enforce_kyc_single_limit enforce_daily_limit
    enforce_no_duplicate_transfer today_start get_daily_outgoing_sum count_recent_transfers
    lock_funded lock_pair lock_for_update Transfer.carry_out post_movement write_movement
    movement_record create conflicts clashes update_balance Transfer.report_transfer
    maybe_flag_rapid_transfers count_distinct_recipients_recently count_destinations Audit.log
    length sum_by insert_transaction add_entry
transfer-goes-through = refl

initiate_transfer-limits_example :
    (alice.kyc_tier ≢ 0)
    × (300 ≤ single_limit alice.kyc_tier)
    × (get_daily_outgoing_sum 1 transfer
          (today_start env)
          (Transfer.initiate_transfer env alice (Transfer.by_id 2) 300 none bank).1.committed
        ≤ tier_daily_limit alice.kyc_tier)
initiate_transfer-limits_example =
    initiate_transfer-limits env 300 none bank refl books-IsSound.wallets_keyed unused sent alice
      (Transfer.by_id 2) transfer-goes-through

payment-goes-through : (MerchantPayment.initiate_payment env alice 21 300 none bank).0 ≡ ok paid
unfolding MerchantPayment.initiate_payment MerchantPayment.payment_plan
    MerchantPayment.resolve_merchant MerchantPayment.resolve_wallets MerchantPayment.check_and_lock
    get_merchant_by_id get_by_user_id get_by_key_if_given find select check_merchant_payment
    enforce_kyc_single_limit enforce_daily_limit today_start get_daily_outgoing_sum lock_funded
    lock_pair lock_for_update MerchantPayment.carry_out post_movement write_movement movement_record
    create conflicts clashes MerchantPayment.report_payment maybe_flag_merchant_payment
    create_and_enqueue create_delivery Audit.log length sum_by insert_transaction add_entry
payment-goes-through = refl

initiate_payment-limits_example :
    (alice.kyc_tier ≢ 0)
    × (300 ≤ single_limit alice.kyc_tier)
    × (get_daily_outgoing_sum 1 merchant_payment
          (today_start env)
          (MerchantPayment.initiate_payment env alice 21 300 none bank).1.committed
        ≤ tier_daily_limit alice.kyc_tier)
initiate_payment-limits_example =
    initiate_payment-limits env 300 none bank refl books-IsSound.wallets_keyed unused paid alice 21
      payment-goes-through
