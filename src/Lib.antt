-- ===== src/Lib.antt =====
-- PayCore is a payment backend: users hold wallets in kobo, fund them through Paystack, send money
-- to each other, pay merchants, and withdraw to a bank account. This library models the parts that
-- move money, and those that say who may: tokens, API keys and identity checks (KYC).
--
-- The parts and the files that model them:
--   * app/models, app/core/exceptions.py, app/core/config.py: `Models`, `Core`. A row is a record of
--     the table's name, a Python enumeration is a data type with the same members.
--   * app/core/database.py: `Database` has the tables and the reads (`Query`), `Session` has a
--     session with the tables that it sees (`db`) and those that are committed (`committed`), the
--     tasks enqueued and the payouts that were sent. A method of a service is an `Action`: it takes
--     a session and returns a result or an error with the session that it leaves behind. `request`
--     runs it in a session of its own, and what it did not commit is dropped.
--   * app/repositories: `Repositories`, one function per method. `People` has the lookups of users,
--     merchants and bank accounts.
--   * app/services/transfer.py, merchant_payment.py, fraud.py, ledger.py: `Services/Transfer`,
--     `Services/MerchantPayment`, `Services/Fraud`, `Repositories/Ledger`. The code of the two
--     services that is the same line by line stands once, in `Services/Locking` (the ordered locks
--     and the balance check) and `Services/Posting` (the writes and the IntegrityError handler).
--   * app/services/withdrawal.py: `Services/Withdrawal`, with `Payout` for process_payout_success and
--     process_payout_failure and `Execution` for execute_payout.
--   * app/services/paystack_webhook.py, audit.py, webhook_delivery.py: `Services/PaystackWebhook`,
--     `Services/Audit`, `Services/WebhookDelivery`. process_transfer_result stands in
--     `Services/Withdrawal/Payout`. The management of bank accounts stands in
--     `Services/BankAccounts`.
--   * app/services/wallet.py, wallet_funding.py, transaction.py: `Services/Wallet`,
--     `Services/WalletFunding`, `Services/Transaction`.
--   * app/core/security.py, deps.py, app/services/auth.py, user.py, merchant.py: `Core/Security`,
--     `Core/Deps`, `Services/Auth`, `Services/User`, `Services/Merchant`.
--   * app/services/kyc.py, app/integrations/storage.py: `Services/Kyc`, `Integrations/Storage`.
--   * app/api/v1: `Api`. Each endpoint in `Api/Admin` and `Api/Customer` asks who is calling, and then
--     calls its service; `Api/Webhooks` receives what Paystack reports.
--   * app/workers: reconciliation_tasks.py is `Workers/Reconciliation`, webhook_tasks.py is
--     `Workers/Webhooks`, and the three short ones are `Workers/Tasks`.
--
-- The proofs: `Books` says when the tables of money are sound and how each change of them keeps them
-- so. `Settlement` specifies a request between two wallets, independently of the code, and proves
-- that transfers and payments implement it. `Flows` does the same for money that enters and leaves.
-- `System` puts all operations together as steps, `Lifecycle` follows the status of one transaction.
-- `Access` is about tokens, profiles and API keys, `Kyc` about submissions and tiers, `Accounts` about
-- the default bank account, `Deliveries` about webhooks to merchants and `Listings` about pages.
-- `Keeping` has what their proofs share. `Tests` applies the theorems to a small bank.
--
-- How the program is read:
--   * Amounts are whole kobo, numbers of ℕ, so the CHECK constraint `balance >= 0` is part of the
--     type; a subtraction is made where the code has compared before. The limits of the settings,
--     given in naira, are multiplied by 100. Overflow of NUMERIC(20, 2) is not modelled.
--   * UUIDs are numbers; the k-th one drawn is a parameter of the model (`Env`), and nothing assumes
--     that they are new: an insert is checked against the UNIQUE constraints, and a clash is an
--     IntegrityError. The primary keys of ledger entries, audit logs and webhook deliveries are not
--     checked.
--   * The clock, Paystack's answers, the Celery broker and the success of an audit write are fields
--     of `Env`. Each step of `System` has an `Env` of its own. A payout that was sent stays sent.
--   * Times are seconds. Messages, log lines, the metadata of the audit trail, the payload of a
--     webhook and the reason of a risk flag are left out.
--   * Sessions run one after the other: row locks never wait, and a lock reads the current row.
--     There are no loops but those over finite lists, so no fuel is needed.
--   * bcrypt, SHA-256, random tokens and JWT are the record `Security` of `Env`. HMAC, the reading of
--     a JSON body, S3 and the merchants' servers are functions of `Env`. Bytes are numbers.
--   * A table is a list of rows, newest first, which is what ORDER BY created_at reads.
--
-- Not modelled: the endpoints of auth.py (they only call the service), rendering, schemas and rate
-- limits, migrations, and the HTTP clients of app/integrations, whose answers are parameters.
pub mod Base
pub mod Core
pub mod Models
pub mod Database
pub mod Session
pub mod Integrations
pub mod Repositories
pub mod Services
pub mod Workers
pub mod Api
pub mod Books
pub mod Settlement
pub mod Flows
pub mod System
pub mod Tests
pub mod Lifecycle
pub mod Deliveries
pub mod Keeping
pub mod Access
pub mod Listings
pub mod Accounts
pub mod Kyc
