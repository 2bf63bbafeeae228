-- ===== src/Remote.antt =====
-- internal/remote: the cache server, its client, and what stands before them.
pub mod Wire
pub mod Server
pub mod HttpClient
pub mod Shared
pub mod Tiered
