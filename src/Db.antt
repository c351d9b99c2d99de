-- ===== src/Db.antt =====
-- dblog.cpp: the database of log entries, last probes and notifications, over the library of
-- `Lmdb`. A function is an action on the caller's `dbenv` and the library's state; the children
-- `Env`, `Put`, `Read`, `Remove` and `Notification` hold the operations.
pub mod Monad
pub mod Env
pub mod Loop
pub mod Query
pub mod Stored
pub mod Times
pub mod Read
pub mod Remove
pub mod Transaction
pub mod Put
pub mod Notification
pub mod Integrity
