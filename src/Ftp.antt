-- ===== src/Ftp.antt =====
-- The file transfer server and client (myftp/): messages over a byte stream, the functions both sides
-- share, and the commands.
pub mod System
pub mod Message
pub mod Common
pub mod Server
pub mod Client
pub mod Stream
pub mod Blocks
pub mod Sending
pub mod Receiving
pub mod Requests
pub mod GetSides
pub mod Get
pub mod Put
pub mod LongPath
pub mod Refusal
pub mod Stale
pub mod Command
pub mod CommandArgs
pub mod CommandLine
mod Examples
mod CommandExamples
