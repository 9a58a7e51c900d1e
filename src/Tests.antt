-- ===== src/Tests.antt =====
-- Concrete devices, messages and backends, and the theorems of the library applied to them.
mod Fixtures
mod Signing
mod Transport
mod Objects
mod Presence
mod Storage
mod Power
mod Booting
mod Opening
mod Runs
mod Wire
mod Machine
mod Reading
mod Descriptors
