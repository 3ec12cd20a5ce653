-- ===== src/Extent.antt =====
-- The file system's storage: the extent server (extent_server.h, extent_server.cc) and the cache
-- in front of it (extent_client.h, extent_client.cc).
pub mod Server
pub mod Client
