-- ===== src/Redis.antt =====
-- internal/repository/redisrepository: the error handling of redis.go, the deferred calls, and in
-- the children the two repositories.
pub mod Handling
pub mod Registration
pub mod Sessions
pub mod Errors
pub mod Metrics
