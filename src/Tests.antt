-- ===== src/Tests.antt =====
-- The theorems at concrete inputs, by part of the kernel.
mod Strings
mod Storage
mod Accounts
mod Table
mod Disk
mod Machine
