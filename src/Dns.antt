-- ===== src/Dns.antt =====
-- The DNS side: names (src/resolver.ts), messages (src/dnsWire.ts), and the pipelined PTR refresh
-- over one TCP connection (src/ptrRefresh.ts).
pub mod Names
pub mod Lookups
pub mod Asn
pub mod Caching
pub mod Wire
pub mod Stream
pub mod Refresh
