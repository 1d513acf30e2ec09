-- ===== src/Gui/Vim/Printing.antt =====
-- Text and annotations leave the two maps of `class vimui` in agreement.
use vimgdb.Base.{ℕ, zero, suc, Bool, Option, none, some}
use vimgdb.Common.Text.{Bytes}
use vimgdb.Gui.Vim.State.{Win, Cursor}
use vimgdb.Gui.Vim.Windows.{
  when_readonly, win_cursor_preserve, win_readonly, append_text, move_dot, win_vprint, win_print,
  drop_text, win_clear,
}
use vimgdb.Gui.Vim.Notes.{anno_err, define_type, win_anno_add, win_anno_delete}
use vimgdb.Gui.Vim.Keeps.{Keeps, Keeps-pure, keeps, Keeps-win_cursor_set, Keeps-atomic}

Keeps-when_readonly : (win : Win) (ro : Bool) → Keeps (when_readonly win ro)
unfolding when_readonly
Keeps-when_readonly win ro = search keeps depth 8

Keeps-append_text : (id : ℕ) (text : Bytes) → Keeps (append_text id text)
unfolding append_text
Keeps-append_text id text = search keeps depth 10

Keeps-drop_text : (id : ℕ) → Keeps (drop_text id)
unfolding drop_text
Keeps-drop_text id = search keeps depth 10

pub Keeps-cursor_preserve : (win : Win) (pc : Bool) → Keeps (win_cursor_preserve win pc)
unfolding win_cursor_preserve
Keeps-cursor_preserve win pc = search keeps depth 8

pub Keeps-readonly : (win : Win) (ro : Bool) → Keeps (win_readonly win ro)
unfolding win_readonly
Keeps-readonly win ro = search keeps depth 10

pub Keeps-anno_delete :
    (win : Win) (line : ℕ) (sign : Bytes) → Keeps (win_anno_delete win line sign)
unfolding win_anno_delete
Keeps-anno_delete win line sign = search keeps depth 12

module _ (cwd : Bytes) (vim : ℕ → Option Cursor) where
  Keeps-move_dot : (id : ℕ) → Keeps (move_dot cwd vim id)
  unfolding move_dot
  Keeps-move_dot id = search (keeps, Keeps-win_cursor_set)

  pub Keeps-vprint : (win : Win) (text : Bytes) → Keeps (win_vprint cwd vim win text)
  unfolding win_vprint
  Keeps-vprint win text =
      search (keeps, Keeps-atomic, Keeps-when_readonly, Keeps-append_text, Keeps-move_dot) depth 20

  pub Keeps-print : (win : Win) (text : Bytes) → Keeps (win_print cwd vim win text)
  unfolding win_print
  Keeps-print none text = Keeps-pure tt
  Keeps-print (some zero) text = Keeps-pure tt
  Keeps-print (some (suc id)) text = Keeps-vprint (some (suc id)) text

  pub Keeps-clear : (win : Win) → Keeps (win_clear cwd vim win)
  unfolding win_clear
  Keeps-clear win = search (keeps, Keeps-atomic, Keeps-when_readonly, Keeps-drop_text) depth 20

  Keeps-define_type :
      (id n : ℕ) (sign color_fg color_bg : Bytes)
      → Keeps (define_type cwd vim id n sign color_fg color_bg)
  unfolding define_type
  Keeps-define_type id zero sign color_fg color_bg = search keeps depth 12
  Keeps-define_type id (suc n) sign color_fg color_bg = Keeps-pure (suc n)

  pub Keeps-anno_add :
      (win : Win) (line : ℕ) (sign color_fg color_bg : Bytes)
      → Keeps (win_anno_add cwd vim win line sign color_fg color_bg)
  unfolding win_anno_add anno_err
  Keeps-anno_add win line sign color_fg color_bg =
      search (keeps, Keeps-atomic, Keeps-define_type) depth 24
