-- ===== src/Tests/Lives.antt =====
-- The theorems on what happens once, or in one direction, at concrete inputs.
use paycore_backend.Base.{◌+◌, ◌≤◌, ◌≡◌, none, refl}
use paycore_backend.Core.Errors.{ok}
use paycore_backend.Models.Transaction.{Transaction, valid_transition, processing, completed}
use paycore_backend.Repositories.Transaction.{update_status, with_status}
use paycore_backend.Services.Withdrawal.Payout.{
  process_payout_success, process_payout_failure, process_transfer_result,
}
use paycore_backend.Lifecycle.{rank, untouched, updated, Updates-rank}
use paycore_backend.Flows.Once.{process_payout_success-once, process_payout_failure-once}
use paycore_backend.Tests.Bank.{env, bank, waiting_row, bank-Sound}

abbrev started : Transaction
started = with_status waiting_row processing none

abbrev ended : Transaction
ended = with_status started completed none

starts : (update_status waiting_row processing none none bank).0 ≡ ok started
unfolding update_status valid_transition with_status
starts = refl

ends : (update_status started completed none none bank).0 ≡ ok ended
unfolding update_status valid_transition with_status
ends = refl

Updates-rank_example : (rank ended.status ≡ 2 + rank waiting_row.status) × (2 ≤ 3)
Updates-rank_example =
    Updates-rank waiting_row ended 2
      (updated completed none none bank (updated processing none none bank untouched starts) ends)

process_payout_success-once_example :
    let s' = (process_payout_success env "W1" bank).1 in
    (process_transfer_result env "transfer.failed" "W1" "TRF" s').1 ≡ s'
process_payout_success-once_example =
    process_payout_success-once env env "transfer.failed" "W1" "TRF" bank bank-Sound

process_payout_failure-once_example :
    let s' = (process_payout_failure env "W1" "TRF" bank).1 in
    (process_transfer_result env "transfer.success" "W1" "TRF" s').1 ≡ s'
process_payout_failure-once_example =
    process_payout_failure-once env env "transfer.success" "W1" "TRF" bank bank-Sound "TRF"
