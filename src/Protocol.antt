-- ===== src/Protocol.antt =====
-- The messages of the protocols: the structures that the RPC calls carry, and their `<<` and `>>`.
pub mod Paxos
pub mod Rsm
pub mod Extent
pub mod RoundTrip
mod Tests
