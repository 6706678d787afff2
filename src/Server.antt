-- ===== src/Server.antt =====
-- src/server: the pool of connections to upstream servers.
pub mod Pool
pub mod Resolver
pub mod Steps
pub mod Handler
