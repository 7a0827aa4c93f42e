-- ===== src/Tests.antt =====
-- Runs of the model, and the theorems at concrete data, over the stand-ins of `Memory`.
mod Memory
mod Laws
mod Worlds
mod Sessions
mod Accounts
mod Requests
mod Startup
mod Backend
mod System
mod Http
mod Rpc
mod Passwords
mod Removed
mod Runs
mod Logger
