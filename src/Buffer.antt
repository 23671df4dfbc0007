-- ===== src/Buffer.antt =====
-- The buffer cache exercise (buffer/): the state and its fields, the lists of buffer.c, the block
-- operations of blockfunc.c, and what is proved of them.
pub mod Status
pub mod Store
pub mod Lists
pub mod Block
pub mod Show
pub mod Relink
pub mod Bits
pub mod Queues
pub mod Invariant
pub mod Search
pub mod Take
pub mod Replace
pub mod Getblk
pub mod Contract
pub mod Release
pub mod Init
pub mod Session
pub mod Command
pub mod Lines
pub mod Listing
pub mod CommandSafety
pub mod Prompt
mod Examples
mod LineExamples
