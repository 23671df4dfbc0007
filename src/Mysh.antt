-- ===== src/Mysh.antt =====
-- The shell, mysh/.
pub mod Line
pub mod Search
pub mod FirstDir
pub mod Token
pub mod Grammar
pub mod Exec
pub mod Redirect
pub mod Pipeline
pub mod Reaped
pub mod Shell
pub mod Session
mod ExecExamples
mod Examples
mod SearchExamples
