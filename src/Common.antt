-- ===== src/Common.antt =====
-- common/ and include/common/: strings, line map, growing output buffer, options, linked lists.
pub mod Text
pub mod Escape
pub mod Split
pub mod LineMap
pub mod Dynarray
pub mod Opt
pub mod Itoa
pub mod Swap
pub mod Page
pub mod Linked
