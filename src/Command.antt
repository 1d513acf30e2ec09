-- ===== src/Command.antt =====
-- user_cmd/: the commands of the user.
pub mod Break
pub mod Memory
pub mod Per
