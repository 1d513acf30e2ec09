-- ===== src/Tests.antt =====
-- Runs of the modelled code at concrete inputs, and the theorems applied to them.
mod Text
mod Windows
mod Options
mod Breakpoints
mod Gdb
mod Memory
mod Lists
mod Variables
mod Per
mod Registry
