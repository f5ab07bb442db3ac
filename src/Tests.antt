-- ===== src/Tests.antt =====
-- Runs of the theorems at concrete machines.
mod Memory
mod Locks
mod Disk
mod Table
mod Slots
mod Data
mod Bytes
mod Files
mod Volume
mod Naming
mod Tables
