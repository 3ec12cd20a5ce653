-- ===== src/Paxos.antt =====
-- Paxos: the acceptor and its log (paxos.cc, log.cc), and the proposer (paxos.cc).
pub mod Acceptor
pub mod Proposer
