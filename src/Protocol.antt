-- ===== src/Protocol.antt =====
-- src/protocol: the messages of SOCKS4, SOCKS4a, SOCKS5 and GSS-API on the wire.
pub mod Types
pub mod Stream
pub mod Socks5
pub mod Socks4
pub mod GssApi
pub mod Udp
