-- ===== src/Menu.antt =====
-- internal/menu: the menus of the board. Of them the full-screen editor is here.
pub mod Fsed
mod Tests
