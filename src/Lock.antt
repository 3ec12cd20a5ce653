-- ===== src/Lock.antt =====
-- The lock service: the blocking server (lock_server.cc), the caching one
-- (lock_server_cache.cc), and the client that keeps its locks (lock_client_cache.cc).
pub mod Server
pub mod Cache
pub mod Client
