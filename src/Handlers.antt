-- ===== src/Handlers.antt =====
-- The handlers of node/src/node_client_communication.c. A handler takes the body that was received and
-- the process, and gives the message that it builds with the process afterwards. `none` is undefined
-- behaviour, or a call that does not return. The node's own buffers are values here; `malloc` is taken
-- to grant them.
pub mod Reply
pub mod MemoryHandlers
pub mod ObjectHandlers
pub mod ThreadHandlers
