-- ===== src/Acl.antt =====
-- src/acl: access control lists.
pub mod Types
pub mod Ports
pub mod Matcher
pub mod Engine
pub mod Crud
pub mod Stats
