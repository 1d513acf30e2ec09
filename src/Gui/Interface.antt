-- ===== src/Gui/Interface.antt =====
-- class `gui` (include/gui/gui.h): the operations that the commands of the user call.
use vimgdb.Base.{ℕ, Bool, Option}
use vimgdb.Base.Runs.{Run, Stays}
use vimgdb.Common.Text.{Bytes}
use vimgdb.Gui.Vim.State.{Win}

pub record Gui (U : Type 0) : Type 0 where
  pub win_getid : Bytes → U → Win
  pub win_create : Option Bytes → Run U Win
  pub win_atomic : Win → Bool → Run U Bool
  pub win_clear : Win → Run U (Unit {0})
  pub win_print : Win → Bytes → Run U (Unit {0})
  pub win_anno_add : Win → ℕ → (sign color_fg color_bg : Bytes) → Run U Bool
  pub win_anno_delete : Win → ℕ → (sign : Bytes) → Run U Bool
  pub win_cursor_set : Win → (line : Option ℕ) → (column : ℕ) → Run U Bool

-- Every operation keeps `P`.
pub record IsSound {U : Type 0} (ui : Gui U) (P : U → Type 0) : Type 0 where
  pub create : (name : Option Bytes) → Stays P (ui.win_create name)
  pub group : (win : Win) (en : Bool) → Stays P (ui.win_atomic win en)
  pub clear : (win : Win) → Stays P (ui.win_clear win)
  pub print : (win : Win) (text : Bytes) → Stays P (ui.win_print win text)
  pub anno_add :
      (win : Win) (line : ℕ) (sign color_fg color_bg : Bytes)
      → Stays P (ui.win_anno_add win line sign color_fg color_bg)
  pub anno_delete :
      (win : Win) (line : ℕ) (sign : Bytes) → Stays P (ui.win_anno_delete win line sign)
  pub cursor_set :
      (win : Win) (line : Option ℕ) (column : ℕ) → Stays P (ui.win_cursor_set win line column)
