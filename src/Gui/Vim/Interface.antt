-- ===== src/Gui/Vim/Interface.antt =====
-- `class vimui` as a user interface, whose operations keep the maps of windows in agreement.
use vimgdb.Base.{ℕ, ◌≡◌, refl, true, Option, none, some}
use vimgdb.Base.Runs.{Run, Then, Stays}
use vimgdb.Common.Text.{Bytes}
use vimgdb.Gui.Interface.{Gui, IsSound}
use vimgdb.Gui.Vim.State.{Cursor, Vim}
use vimgdb.Gui.Vim.{win_getid, win_cursor_set}
use vimgdb.Gui.Vim.Windows.{win_create, win_clear, win_print, win_atomic}
use vimgdb.Gui.Vim.Notes.{win_anno_add, win_anno_delete}
use vimgdb.Gui.Vim.Maps.{IsConsistent}
use vimgdb.Gui.Vim.Reach.{
  Step, creates, groups, clears, prints, annotates, unannotates, moves, Step-IsConsistent,
}

module _ (cwd : Bytes) (vim : ℕ → Option Cursor) where
  abbrev pub vim_gui : Gui Vim
  vim_gui = record {
    win_getid = win_getid cwd vim;
    win_create = win_create cwd vim;
    win_atomic = win_atomic cwd vim;
    win_clear = win_clear cwd vim;
    win_print = win_print cwd vim;
    win_anno_add = win_anno_add cwd vim;
    win_anno_delete = win_anno_delete;
    win_cursor_set = win_cursor_set cwd vim;
  }

  pub of_steps :
      {A : Type 0} (m : Run Vim A)
      → ((a : A) (s s' : Vim) → m s ≡ some (a, s') → Step cwd vim s s')
      → Stays IsConsistent m
  of_steps {A} m h s c = go (m s) refl
    where
      go : (o : Option (A × Vim)) → m s ≡ o → Then IsConsistent o
      go none e = tt
      go (some (a, s')) e = Step-IsConsistent cwd vim (h a s s' e) c

  -- The operations of `class vimui` that the commands of the user call keep the two maps of
  -- windows consistent.
  pub vim_gui-IsSound : IsSound vim_gui IsConsistent
  unfolding win_atomic
  vim_gui-IsSound = record {
    create = λ name. of_steps _ (λ w s s' e. creates name w e);
    group = λ win en. of_steps _ (λ r s s' e. groups win en true r e);
    clear = λ win. of_steps _ (λ r s s' e. clears win e);
    print = λ win text. of_steps _ (λ r s s' e. prints win text e);
    anno_add = λ win line sign fg bg. of_steps _ (λ r s s' e. annotates win line sign fg bg r e);
    anno_delete = λ win line sign. of_steps _ (λ r s s' e. unannotates win line sign r e);
    cursor_set = λ win line col. of_steps _ (λ r s s' e. moves win line col r e);
  }
