-- ===== src/Tests.antt =====
-- The theorems at concrete inputs.
mod Data
mod Pool
mod Headers
mod Objects
mod Requests
mod Sequences
mod StoredBytes
mod Interleavings
mod Schemas
mod Downloads
mod Principals
mod Cleanups
mod Queues
mod StartUp
