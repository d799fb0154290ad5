-- ===== src/Gateway.antt =====
-- internal/gateway: OAuth, access tokens and the persisted client registry.
pub mod Types
pub mod Jwt
pub mod Checks
pub mod Codes
pub mod ClientsFile
pub mod Endpoints
pub mod Config
pub mod Tools
