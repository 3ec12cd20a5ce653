-- ===== src/Rpc.antt =====
-- The RPC library (rpc/): the requests and the reply window of a server, the request
-- numbers of a client.
pub mod Replies
pub mod Calls
pub mod Marshal
pub mod Dispatch
pub mod Fifo
pub mod Timespec
