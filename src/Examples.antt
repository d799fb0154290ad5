-- ===== src/Examples.antt =====
-- Concrete devices, transfers, codes and files, on which the theorems are applied.
mod Runs
mod Transfers
mod Oauth
mod Authorize
mod Reloads
mod Http
mod Tools
