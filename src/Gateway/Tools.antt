-- ===== src/Gateway/Tools.antt =====
-- internal/gateway/tools.go: the MCP tools. Json and Format turn a device's answer into text; Calls and
-- Transfers are the handlers, which call the device manager.
pub mod Json
pub mod Format
pub mod Results
pub mod Schema
pub mod Specs
pub mod Calls
pub mod Transfers
