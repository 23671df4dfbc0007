-- ===== src/Dhcp/Server.antt =====
-- The server, mydhcp/mydhcpserver.c.
pub mod Store
pub mod Lists
pub mod Machine
pub mod Loop
pub mod Config
pub mod ConfigArgs
pub mod ConfigPool
pub mod Start
pub mod Finish
pub mod Main
pub mod Relink
pub mod Lease
pub mod Change
pub mod Actions
pub mod Admission
pub mod Weight
pub mod Timeouts
pub mod Expire
pub mod Quiet
pub mod Tick
pub mod BadRelease
pub mod Handle
pub mod Sender
pub mod Rounds
pub mod Grant
pub mod Welcome
