-- ===== src/Device.antt =====
-- internal/device: sessions, the registry of devices, and file transfers between them.
pub mod Types
pub mod Session
pub mod Registry
pub mod Transfer
pub mod Frame
pub mod Lifecycle
pub mod Calls
pub mod Events
pub mod Http
pub mod WebSocket
