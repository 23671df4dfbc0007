-- ===== src/Dhcp.antt =====
-- The address server and its client (mydhcp/): the message format that they share, the server's
-- memory, operations and event loop, and the client's state machine.
pub mod Counter
pub mod Message
pub mod Server
pub mod Client
pub mod Handshake
mod HandshakeExamples
mod StartExamples
mod Examples
mod RoundExamples
