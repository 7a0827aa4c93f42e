-- ===== src/Service.antt =====
-- internal/service/service.go: the service over its repositories. `Process` is its state, with the
-- goroutines that it has started; `Sessions` and `Accounts` hold the operations.
pub mod Process
pub mod Sessions
pub mod Accounts
pub mod Errors
pub mod Deletion
pub mod Cleanup
pub mod Activation
pub mod Registration
pub mod Lifecycle
pub mod Revoked
pub mod Authentication
