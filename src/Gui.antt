-- ===== src/Gui.antt =====
-- gui/: the window interface, as gui/vim implements it over the netbeans protocol.
pub mod Vim
pub mod Interface
