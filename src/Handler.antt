-- ===== src/Handler.antt =====
-- internal/handler: the gRPC methods over the service. `Validation` and `Context` are their
-- checks of the input.
pub mod Validation
pub mod Context
pub mod Methods
pub mod Inputs
pub mod Laws
pub mod Tokens
pub mod Statuses
pub mod Authorized
