-- ===== src/Tests.antt =====
-- The theorems at concrete inputs, over the library in memory.
mod Setup
mod Integrity
mod Queue
mod Writing
mod Postgres
mod Lines
mod Services
mod Probes
mod Database
mod Notifications
mod Values
