-- ===== src/Database.antt =====
-- The SQLAlchemy session as backend/db/session.py sets it up, with `autoflush=False`: a query's
-- conditions are tested on the rows as the database holds them, and it returns the session's own
-- objects, with the changes that have not been flushed. So a row keeps both. An object that was
-- added and not yet flushed has no stored row, and no query finds it.
pub mod Table
pub mod Rows
pub mod Counts
pub mod Session
pub mod Grows
pub mod Benign
pub mod Accounts
pub mod AllRows
