-- ===== src/Device/Transfer.antt =====
-- internal/device/transfer.go: the life of a file transfer. The operations take the transport's
-- answers and the time. The handlers of readiness, chunks and the source's finish, the cancellation and the
-- failure hold the transfer's `relayMu` throughout. The target's finish, a peer's failure and the source's
-- cancellation hold `transferMu` only while they decide, and then call `failTransfer`, a section of its own, as
-- does the source's finish with an invalid hash; here each is run with nothing between the two.
pub mod State
pub mod History
pub mod Start
pub mod Chunks
pub mod Handlers
pub mod Endings
pub mod Invariant
pub mod Release
pub mod Pruning
pub mod Preserve
pub mod Relayed
pub mod Started
pub mod Final
pub mod InOrder
pub mod Verified
pub mod Abstract
pub mod Refines
