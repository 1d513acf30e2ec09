-- ===== src/Gdb.antt =====
-- gdb/: what the commands of the user ask of gdb, and what gdb writes.
pub mod Breakpoints
pub mod Reader
pub mod Handshake
pub mod Events
pub mod Issue
pub mod Variables
pub mod Registry
