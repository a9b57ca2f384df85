-- ===== src/Tests.antt =====
-- Concrete runs of the code, on which the theorems are applied.
mod Windows
mod Locks
mod Messages
mod Server
mod Network
mod Connections
mod Polling
mod Channels
mod Pools
mod Testers
mod Addresses
