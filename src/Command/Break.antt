-- ===== src/Command/Break.antt =====
-- user_cmd/break.cc: the command `Break` and its registry of breakpoints. What `USER` logs is left
-- out.
pub mod Table
pub mod Screen
pub mod Agrees
use vimgdb.Base.{
  ℕ, Bool, true, false, not, List, [], ◌∷◌, ◌++◌, Option, none, some, if◌then◌else◌, take,
}
use vimgdb.Base.Maps.{lookup, insert, erase, bytes_key}
use vimgdb.Base.Runs.{Run, pure, ◌>>=◌, ◌>>◌, gets, modify, crash, on}
use vimgdb.Common.Text.{Bytes, codes}
use vimgdb.Gui.Interface.{Gui}
use vimgdb.Gdb.Breakpoints.{Breakpoint, Gdb}

-- The sub-commands that the table of `subcmd.gperf` tells apart, as far as `Break` knows them.
pub data Subcmd : Type 0 where
  add delete enable disable complete export view other : Subcmd

-- The registry, with gdb, the user interface, and the files that were written.
pub record Session (G U : Type 0) : Type 0 where
  pub breakpt_lst : List (Bytes × Breakpoint)
  pub gdb : G
  pub ui : U
  pub files : List (Bytes × Bytes)

-- Whether a sub-command takes an argument.
abbrev pub takes_argument : Subcmd → Bool
takes_argument view = false
takes_argument other = false
takes_argument _ = true

-- What the code calls and is not its own: the lookup of a sub-command, the decimal digits of
-- `%d`, the order in which a `std::map` is run through, what `win_print` makes of a text that is
-- handed to it as a format, and whether a file can be opened.
pub record Calls : Type 0 where
  pub subcmd : Bytes → Option Subcmd
  pub decimal : ℕ → Bytes
  pub in_order : List (Bytes × Breakpoint) → List (Bytes × Breakpoint)
  pub format : Bytes → Bytes
  pub opens : Bytes → Bool

-- `(s ? before : "")`, `(s ? s : "")`
abbrev pub preceded : Bytes → Option Bytes → Bytes
preceded before none = []
preceded before (some s) = before ++ s

module _ (calls : Calls) where
  -- `file:line`, or else `at`; a null `at` is read as a string.
  unfoldable pub place : Breakpoint → Option Bytes
  place b = elim b.filename [ some f ↦ some (f ++ b':' ∷ calls.decimal b.line) | none ↦ b.at ]

  -- `snprintf(key, 256, …)`
  unfoldable pub location : Breakpoint → Option Bytes
  unfolding place
  location b = elim (place b) [ none ↦ none | some k ↦ some (take 255 k) ]

  -- A line of the window.
  unfoldable pub window_row : Breakpoint → Bytes → Bytes
  window_row b at =
      at
      ++ (if b.enabled then [] else codes " [disabled]")
      ++ preceded (codes " after ") b.ignore_cnt
      ++ preceded (codes " if ") b.condition
      ++ 10 ∷ []

  -- A line of the list for completion: its end is written as two characters.
  unfoldable pub complete_row : Breakpoint → Bytes → Bytes
  complete_row b at = at ++ codes "\\n"

  -- A line of the exported script.
  unfoldable pub export_row : Breakpoint → Bytes → Bytes
  export_row b at =
      codes "Break add "
      ++ (elim b.condition [ none ↦ [] | some c ↦ codes "-c " ++ c ++ codes " " ])
      ++ (elim b.ignore_cnt [ none ↦ [] | some c ↦ codes "-i " ++ c ++ codes " " ])
      ++ (if b.temporary then codes "-t " else [])
      ++ at
      ++ 10 ∷ []

  -- `for(it=breakpt_lst.begin(); …)`
  unfoldable pub rows : (Breakpoint → Bytes → Bytes) → List (Bytes × Breakpoint) → Option Bytes
  rows row [] = some []
  rows row ((k, b) ∷ lst) =
      let rest = rows row lst in
      elim (place b) [
        | none ↦ none
        | some at ↦ (elim rest [ none ↦ none | some t ↦ some (row b at ++ t) ])
      ]

module _ {G U : Type 0} (gdb : Gdb G) (ui : Gui U) (calls : Calls) where
  -- A call of the user interface.
  unfoldable pub call_ui : {A : Type 0} → Run U A → Run (Session G U) A
  call_ui m s = elim (m s.ui) [ none ↦ none | some (a, u) ↦ some (a, record s { ui = u }) ]

  -- `gdb->mi_issue_cmd(…)`
  unfoldable pub issue : {A : Type 0} → (G → A × G) → Run (Session G U) A
  issue m s = some ((m s.gdb).0, record s { gdb = (m s.gdb).1 })

  unfoldable pub set_lst :
      (List (Bytes × Breakpoint) → List (Bytes × Breakpoint)) → Run (Session G U) (Unit {0})
  set_lst f = modify (λ s. record s { breakpt_lst = f s.breakpt_lst })

  unfoldable pub write_file : Bytes → Bytes → Run (Session G U) (Unit {0})
  write_file path text = modify (λ s. record s { files = insert path text s.files })

  -- `breakpt_print()`
  unfoldable pub breakpt_print : Run (Session G U) (Unit {0})
  breakpt_print = do
    win ← gets (λ s. ui.win_getid (codes "breakpoints") s.ui)
    lst ← gets (λ s. calls.in_order s.breakpt_lst)
    on win (pure tt) (λ id. on (rows calls (window_row calls) lst) (crash) (λ text. do
      call_ui (ui.win_atomic (some id) true)
      call_ui (ui.win_clear (some id))
      call_ui (ui.win_print (some id) (calls.format text))
      call_ui (ui.win_atomic (some id) false)
      pure tt))

  -- `breakpt_print(filename)`
  unfoldable pub breakpt_list : Bytes → Run (Session G U) (Unit {0})
  breakpt_list path = if not (calls.opens path) then pure tt else do
    lst ← gets (λ s. calls.in_order s.breakpt_lst)
    on (rows calls (complete_row calls) lst) (crash) (write_file path)

  unfoldable pub export_lst : Bytes → Run (Session G U) (Unit {0})
  export_lst path = if not (calls.opens path) then pure tt else do
    lst ← gets (λ s. calls.in_order s.breakpt_lst)
    on (rows calls (export_row calls) lst) (crash) (λ t. write_file path (t ++ 10 ∷ []))

  -- `ui->win_anno_add(ui->win_create(bkpt->fullname), bkpt->line, "b", "Black", color_bg)`
  unfoldable pub mark : Breakpoint → Bytes → Run (Session G U) (Unit {0})
  mark b color_bg = do
    win ← call_ui (ui.win_create b.fullname)
    call_ui (ui.win_anno_add win b.line (codes "b") (codes "Black") color_bg)
    pure tt

  unfoldable pub unmark : Breakpoint → Run (Session G U) (Unit {0})
  unmark b = do
    win ← call_ui (ui.win_create b.fullname)
    call_ui (ui.win_anno_delete win b.line (codes "b"))
    pure tt

  -- What gdb inserted is registered, unless its location is taken: then gdb deletes it again.
  unfoldable pub register : Breakpoint → Bytes → Run (Session G U) (Unit {0})
  register b key = do
    old ← gets (λ s. lookup key s.breakpt_lst)
    on old (do set_lst (insert key b); breakpt_print; mark b (codes "DarkRed"))
        (λ _. do issue (gdb.break_delete b.num); pure tt)

  unfoldable pub break_add : List Bytes → Run (Session G U) (Unit {0})
  break_add args = do
    r ← issue (gdb.break_insert args)
    on r (pure tt) (λ b. on (location calls b) (crash) (register b))

  unfoldable pub delete_found : Bytes → Breakpoint → Run (Session G U) (Unit {0})
  delete_found key b = do
    r ← issue (gdb.break_delete b.num)
    if not r then pure tt else do unmark b; set_lst (erase key); breakpt_print

  -- The two sub-commands differ in the command, the flag and the colour.
  unfoldable pub break_switch :
      (ℕ → G → Bool × G) → Bool → Bytes → Bytes → Breakpoint → Run (Session G U) (Unit {0})
  break_switch command on color key b = do
    r ← issue (command b.num)
    if not r then pure tt else do
      set_lst (insert key (record b { enabled = on }))
      breakpt_print
      unmark b
      mark b color

  -- `breakpt_lst.find(argv[2])`
  unfoldable pub found :
      Bytes → (Breakpoint → Run (Session G U) (Unit {0})) → Run (Session G U) (Unit {0})
  found key f = do b ← gets (λ s. lookup key s.breakpt_lst); on b (pure tt) f

  unfoldable pub break_subcmd : Subcmd → Bytes → List Bytes → Run (Session G U) (Unit {0})
  break_subcmd add arg args = break_add (arg ∷ args)
  break_subcmd delete arg args = found arg (delete_found arg)
  break_subcmd enable arg args =
      found arg (break_switch gdb.break_enable true (codes "DarkRed") arg)
  break_subcmd disable arg args =
      found arg (break_switch gdb.break_disable false (codes "Yellow") arg)
  break_subcmd complete arg args = breakpt_list arg
  break_subcmd export arg args = export_lst arg
  break_subcmd view arg args = breakpt_print
  break_subcmd other arg args = pure tt

  -- `argv` holds the command's own name first.
  unfoldable pub cmd_break_exec : List Bytes → Run (Session G U) Bool
  cmd_break_exec [] = pure false
  cmd_break_exec (name ∷ []) = pure false
  cmd_break_exec (name ∷ sub ∷ []) =
      on (calls.subcmd sub) (pure false)
        (λ c. if takes_argument c then pure false else (break_subcmd c [] [] >> pure false))
  cmd_break_exec (name ∷ sub ∷ arg ∷ args) =
      on (calls.subcmd sub) (pure false) (λ c. break_subcmd c arg args >> pure false)

  -- With the program's end.
  unfoldable pub cmd_break_cleanup : Run (Session G U) (Unit {0})
  cmd_break_cleanup = set_lst (λ lst. [])
