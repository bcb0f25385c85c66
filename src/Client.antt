-- ===== src/Client.antt =====
-- diconlib/src/client_node_communication.c: the requests that a client builds, and the calls.
pub mod Transport
pub mod MemoryCalls
pub mod ObjectCalls
pub mod ThreadCalls
pub mod Devices
pub mod MainCalls
pub mod NodesConnect
