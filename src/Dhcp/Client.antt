-- ===== src/Dhcp/Client.antt =====
-- The client, mydhcp/mydhcpclient.c.
pub mod Machine
pub mod Loop
pub mod Diagram
pub mod Answers
