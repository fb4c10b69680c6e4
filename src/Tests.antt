-- ===== src/Tests.antt =====
-- A small bank (`Bank`), and each theorem with hypotheses applied to it: `Money` for what keeps the
-- books sound, `Rules` for idempotency keys and limits, `Lives` for what happens once, and, on
-- the larger `Desk`, `Access` for tokens, roles and keys, `Outside` for deliveries, webhooks and listings, and
-- `Onboarding` for identity checks and bank accounts.
mod Bank
mod Money
mod Rules
mod Lives
mod Desk
mod Access
mod Outside
mod Onboarding
