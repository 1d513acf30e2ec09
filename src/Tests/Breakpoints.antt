-- ===== src/Tests/Breakpoints.antt =====
-- Runs of `Break` with a gdb that keeps a table, and windows of vim.
use vimgdb.Base.{
  ℕ, ◌+◌, ◌≤◌, ◌<◌, ◌≡◌, refl, subst, Bool, true, false, List, [], ◌∷◌, Option, none, some, ◌==◌,
  if◌then◌else◌, arith,
}
use vimgdb.Base.Maps.{lookup, insert, erase, nat_key, bytes_key, lookup-insert, lookup-erase}
use vimgdb.Base.Runs.{◌>>=◌, and_then, gets, modify, pure, on, crash}
use mathlib.Core.Option.{some-injective}
use vimgdb.Common.Text.{Bytes, codes}
use vimgdb.Gui.Vim.State.{Cursor, Vim}
use vimgdb.Gui.Vim.{
  command, call, update, full_name, win_getid, win_cursor_set, atomic, atomic_begin, atomic_end,
  restore_window, restore_cursor,
}
use vimgdb.Gui.Vim.Windows.{create_buffer, win_create}
use vimgdb.Gui.Vim.Notes.{anno_key, define_type, win_anno_add}
use vimgdb.Gui.Vim.Maps.{IsConsistent}
use vimgdb.Gui.Vim.Reach.{start, here, Reach-IsConsistent}
use vimgdb.Gui.Vim.Interface.{vim_gui, vim_gui-IsSound}
use vimgdb.Gdb.Breakpoints.{Breakpoint, Gdb, IsTable}
use vimgdb.Command.Break.{
  Subcmd, add, delete, disable, Session, Calls, place, location, rows, window_row, call_ui, issue,
  set_lst, breakpt_print, mark, register, break_add, break_subcmd, cmd_break_exec,
}
use vimgdb.Command.Break.Agrees.{IsAgreed, cmd_break_exec-IsAgreed}

abbrev Numbers : Type 0
Numbers = List (ℕ × Bool)

-- A number above all that are in use.
abbrev unused : Numbers → ℕ
unused [] = 1
unused ((n, e) ∷ g) = n + unused g

abbrev inserted : List Bytes → Numbers → Option Breakpoint × Numbers
inserted [] g = (none, g)
inserted (at ∷ args) g = (
  some (record {
    num = unused g;
    temporary = false;
    line = 3;
    filename = none;
    fullname = some (codes "/m.c");
    at = some at;
    condition = none;
    ignore_cnt = none;
    enabled = true;
  }),
  insert (unused g) true g,
)

abbrev table_gdb : Gdb Numbers
table_gdb = record {
  break_insert = inserted;
  break_delete = λ n g. (true, erase n g);
  break_enable = λ n g. (true, insert n true g);
  break_disable = λ n g. (true, insert n false g);
}

unused-free : (k : ℕ) (g : Numbers) → unused g ≤ k → lookup k g ≡ none
unused-free k [] h = refl
unused-free k ((n, e) ∷ g) h = rw (apart n k g h, unused-free k g (omega arith)) refl
  where
    positive : (g : Numbers) → 0 < unused g
    positive [] = omega arith
    positive ((n, e) ∷ g) = omega (arith, positive g)

    apart : (n k : ℕ) (g : Numbers) → n + unused g ≤ k → (n == k) ≡ false
    apart n k g h = ground (arith, positive g, h)

table_gdb-IsTable : IsTable table_gdb lookup
table_gdb-IsTable = record {
  fresh = fresh;
  inserted = new;
  not_inserted = none_new;
  deleted = λ k n g. lookup-erase k n g;
  enables = λ k n g. lookup-insert k n true g;
  disables = λ k n g. lookup-insert k n false g;
}
  where
    fresh :
        (args : List Bytes) (g : Numbers) (b : Breakpoint)
        → (inserted args g).0 ≡ some b
        → lookup b.num g ≡ none
    fresh [] g b e = cc
    fresh (at ∷ args) g b e =
        subst (λ (b : Breakpoint). lookup b.num g ≡ none) (some-injective _ _ e)
          (unused-free (unused g) g (omega arith))

    new :
        (args : List Bytes) (g : Numbers) (b : Breakpoint)
        → (inserted args g).0 ≡ some b
        → (n : ℕ)
        → lookup n (inserted args g).1 ≡ (if b.num == n then some b.enabled else lookup n g)
    new [] g b e n = cc
    new (at ∷ args) g b e n =
        subst
          (λ (b : Breakpoint).
            lookup n (insert (unused g) true g)
            ≡ (if b.num == n then some b.enabled else lookup n g))
          (some-injective _ _ e) (lookup-insert (unused g) n true g)

    none_new :
        (args : List Bytes) (g : Numbers)
        → (inserted args g).0 ≡ none
        → (n : ℕ) → lookup n (inserted args g).1 ≡ lookup n g
    none_new [] g e n = refl
    none_new (at ∷ args) g e n = cc

-- By the first two letters.
abbrev subcmds : Bytes → Option Subcmd
subcmds [] = none
subcmds (c ∷ []) = none
subcmds (c ∷ d ∷ s) =
    if c == b'a'
    then some add
    else if d == b'e'
    then some delete
    else if d == b'i'
    then some disable
    else none

abbrev calls : Calls
calls = record {
  subcmd = subcmds;
  decimal = λ n. (48 + n) ∷ [];
  in_order = λ lst. lst;
  format = λ s. s;
  opens = λ s. true;
}

abbrev cwd : Bytes
cwd = codes "/w"

abbrev vim : ℕ → Option Cursor
vim n = none

abbrev first : Session Numbers Vim
first = record { breakpt_lst = []; gdb = []; ui = start; files = [] }

abbrev run : List Bytes → Session Numbers Vim → Option (Bool × Session Numbers Vim)
run = cmd_break_exec table_gdb (vim_gui cwd vim) calls

abbrev after : Option (Bool × Session Numbers Vim) → Session Numbers Vim
after none = first
after (some (r, s)) = s

abbrev added : Session Numbers Vim
added = after (run (codes "Break" ∷ codes "add" ∷ codes "main" ∷ []) first)

ran : run (codes "Break" ∷ codes "add" ∷ codes "main" ∷ []) first ≡ some (false, added)
unfolding cmd_break_exec on break_subcmd break_add ◌>>=◌ and_then issue location place register gets
    set_lst modify breakpt_print mark call_ui win_getid win_create create_buffer command pure
    full_name start win_anno_add define_type update atomic atomic_begin call atomic_end
    restore_window restore_cursor win_cursor_set anno_key crash rows window_row
ran = refl

added_test : lookup 1 added.gdb ≡ some true
unfolding cmd_break_exec on break_subcmd break_add ◌>>=◌ and_then issue location place register gets
    set_lst modify breakpt_print mark call_ui win_getid win_create create_buffer command pure
    full_name start win_anno_add define_type update atomic atomic_begin call atomic_end
    restore_window restore_cursor win_cursor_set anno_key crash rows window_row
added_test = refl

first-IsAgreed : IsAgreed calls lookup IsConsistent first
first-IsAgreed = record {
  registry = record { located = λ k b e. cc; known = λ k b e. cc; apart = λ k j b c e d s. cc };
  interface = Reach-IsConsistent cwd vim here;
}

cmd_break_exec-IsAgreed_example : IsAgreed calls lookup IsConsistent added
cmd_break_exec-IsAgreed_example =
    cmd_break_exec-IsAgreed table_gdb (vim_gui cwd vim) calls lookup IsConsistent table_gdb-IsTable
      (vim_gui-IsSound cwd vim) (codes "Break" ∷ codes "add" ∷ codes "main" ∷ []) false first added
      first-IsAgreed ran
