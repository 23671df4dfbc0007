-- ===== src/Mycp.antt =====
-- The copy command, mycp/mycp.c.
pub mod Copy
pub mod Whole
mod Examples
