-- ===== src/Models.antt =====
-- app/models: the rows of the tables.
pub mod Transaction
pub mod Rows
pub mod Access
