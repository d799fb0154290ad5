-- ===== src/Device/Http.antt =====
-- internal/device/http.go: devices that poll over HTTP. Waiting is split off, as in `Calls`: a function
-- that may wait takes the case of its `select` that is ready, and says `blocked` if it is not.
pub mod Types
pub mod Transport
pub mod Sessions
pub mod Chunks
pub mod Route
pub mod Relay
pub mod Table
pub mod Authenticated
pub mod Posted
