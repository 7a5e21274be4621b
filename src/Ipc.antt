-- ===== src/Ipc.antt =====
-- src/ipc: the transport, the framing and the dispatch server between launcher and engine.
pub mod Transport
pub mod Socket
pub mod Connect
pub mod Frame
pub mod Server
