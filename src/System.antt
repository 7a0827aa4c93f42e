-- ===== src/System.antt =====
-- The running program: its requests and its goroutines in any order.
pub mod Keeps
pub mod Keys
pub mod Interference
pub mod Backend
pub mod Repository
pub mod Termination
pub mod Frame
pub mod Invariant
pub mod Sound
pub mod Accounts
pub mod Operations
pub mod Deletion
pub mod Goroutines
pub mod Server
pub mod Handlers
pub mod Requests
pub mod Reached
pub mod Usable
pub mod Passwords
pub mod Verified
pub mod Removed
pub mod Ownership
pub mod Listing
pub mod Waiting
pub mod Ending
