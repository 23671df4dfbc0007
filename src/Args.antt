-- ===== src/Args.antt =====
-- The splitting of a line into arguments: getargs/getargs.c, and the same code in
-- buffer/command.c.
pub mod Getargs
pub mod Words
pub mod Strings
pub mod Lines
pub mod Split
mod Examples
