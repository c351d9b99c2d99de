-- ===== src/Db/Integrity.antt =====
-- What every operation of dblog.cpp keeps: the database, and what an open transaction holds, is in
-- key order and has nothing but whole log entries and the items that stand behind them.
pub mod Items
pub mod Calls
pub mod Env
pub mod Operations
pub mod Removals
pub mod Reach
pub mod Parts
mod Members
pub mod Delivered
