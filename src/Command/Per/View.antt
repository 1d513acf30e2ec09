-- ===== src/Command/Per/View.antt =====
-- The window of the peripheral registers: `cmd_per_update` and `cmd_per_cleanup` of
-- user_cmd/per.cc.
-- What USER logs is left out.
use vimgdb.Base.{ℕ, Bool, true, false, List, [], ◌∷◌, ◌++◌, Option, none, some, if◌then◌else◌}
use vimgdb.Base.Maps.{nat_key, bytes_key}
use vimgdb.Base.Runs.{Run, pure, ◌>>=◌, ◌>>◌, gets, modify, on, crash, within}
use vimgdb.Common.Text.{Bytes, codes}
use vimgdb.Common.LineMap.{Entry, clear}
use vimgdb.Common.Page.{Page, blank}
use vimgdb.Gui.Interface.{Gui}
use vimgdb.Gdb.Events.{Handlers}
use vimgdb.Command.Memory.{Memory}
use vimgdb.Command.Memory.View.{Reads, refresh}
use vimgdb.Command.Per.{Section, Range, RangeItem}
use vimgdb.Command.Per.Check.{Ranges, Acquires}
use vimgdb.Command.Per.Print.{Formats, Screen, put_sections}

-- The sub-commands that the table of `subcmd.gperf` tells apart, as far as `Per` knows them.
pub data PerCmd : Type 0 where
  set fold complete export view other : PerCmd

-- What `perparse` made of a file: whether it returned 0, the ranges that it read before it
-- returned, and the property.
pub record Parsed : Type 0 where
  pub ok : Bool
  pub ranges : List RangeItem
  pub end_little : Bool

-- What the code calls and is not its own: the lookup of a sub-command, `atoi`, what `win_print` makes
-- of a text that is handed to it as a format, whether a file can be opened for writing, the parser
-- (`none` for a file that cannot be opened), gdb's answer to `data-read-memory-bytes` for a number
-- and for a text as the address, and whether it took `data-write-memory-bytes`.
pub record Calls (G : Type 0) : Type 0 where
  pub subcmd : Bytes → Option PerCmd
  pub atoi : Bytes → ℕ
  pub format : Bytes → Bytes
  pub opens : Bytes → Bool
  pub perparse : Bytes → Option Parsed
  pub acquire : Acquires G
  pub read : Reads G
  pub write : ℕ → Bytes → ℕ → G → Bool × G

-- The static variables of the file with gdb and the user interface; `fresh` is the next pointer.
pub record Pers (G U : Type 0) : Type 0 where
  pub per_file : Option Bytes
  pub range_lst : Ranges
  pub end_little : Bool
  pub line_secs : List (Entry ℕ)
  pub line_regs : List (Entry ℕ)
  pub fresh : ℕ
  pub gdb : G
  pub ui : U
  pub files : List (Bytes × Bytes)

-- The loop of `cmd_per_update`: the ranges that were printed, the window, and gdb.
pub record Sheet (G : Type 0) : Type 0 where
  pub printed : Ranges
  pub page : Page
  pub line_secs : List (Entry ℕ)
  pub line_regs : List (Entry ℕ)
  pub gdb : G

module _ {G : Type 0} (read : Reads G) (fmt : Formats) (end_little : Bool) where
  abbrev pub to_screen : Bytes → Sheet G → Screen
  to_screen content v = record {
    page = v.page;
    line_secs = v.line_secs;
    line_regs = v.line_regs;
    content = content;
  }

  -- The range with what was printed of it.
  unfoldable pub take_printed :
      ℕ
      → Range
      → Memory
      → Sheet G
      → Option (List (ℕ × Section) × Screen)
      → Option (Unit {0} × Sheet G)
  take_printed p r mem v none = none
  take_printed p r mem v (some (secs, s)) = some (
    tt,
    record v {
      printed =
          v.printed
          ++ (p, record r { sections = secs; mem = some (record mem { content = s.content }) })
            ∷ [];
      page = s.page;
      line_secs = s.line_secs;
      line_regs = s.line_regs;
    },
  )

  -- The sections of a range whose memory was updated.
  unfoldable pub show_range : ℕ → Range → Memory → Run (Sheet G) (Unit {0})
  unfolding take_printed
  show_range p r mem v =
      take_printed p r mem v
        (put_sections fmt end_little mem.content_old r.sections (to_screen mem.content v))

  -- `list_for_each(range_lst, range)`; a memory that cannot be read ends it.
  unfoldable pub show : Ranges → Run (Sheet G) Bool
  unfolding show_range refresh
  show [] = pure true
  show ((p, r) ∷ ranges) = on r.mem (crash) (λ mem. do
    m ← gets (λ v. (read mem.begin mem.length v.gdb).0)
    modify (λ v. record v { gdb = (read mem.begin mem.length v.gdb).1 })
    on m (do modify (λ v. record v { printed = v.printed ++ (p, r) ∷ ranges }); pure false)
        (λ m. do show_range p r (refresh m mem); show ranges))

module _ {G U : Type 0} (ui : Gui U) (calls : Calls G) (fmt : Formats)
    (h : Handlers (Pers G U)) where
  abbrev pub on_ui : {A : Type 0} → Run U A → Run (Pers G U) A
  on_ui m = within (λ s. s.ui) (λ s u. record s { ui = u }) m

  abbrev pub on_gdb : {A : Type 0} → Run G A → Run (Pers G U) A
  on_gdb m = within (λ s. s.gdb) (λ s g. record s { gdb = g }) m

  abbrev pub to_sheet : Pers G U → Sheet G
  to_sheet s = record {
    printed = [];
    page = blank;
    line_secs = clear s.line_secs;
    line_regs = clear s.line_regs;
    gdb = s.gdb;
  }

  abbrev pub take_sheet : Pers G U → Sheet G → Pers G U
  take_sheet s v = record s {
    range_lst = v.printed;
    line_secs = v.line_secs;
    line_regs = v.line_regs;
    gdb = v.gdb;
  }

  -- The window's text, and the lines of the sections and the registers.
  unfoldable pub show_all : Run (Pers G U) (Bool × Bytes)
  unfolding show within
  show_all s =
      within to_sheet take_sheet
        (do
          ok ← show calls.read fmt s.end_little s.range_lst
          page ← gets (λ v. v.page)
          pure (ok, page.obuf))
        s

  unfoldable pub print_page : ℕ → Bytes → Run (Pers G U) Bool
  unfolding within
  print_page win_id obuf = do
    on_ui (ui.win_atomic (some win_id) true)
    on_ui (ui.win_clear (some win_id))
    on_ui (ui.win_print (some win_id) (calls.format obuf))
    on_ui (ui.win_atomic (some win_id) false)
    pure true

  unfoldable pub cmd_per_update : Run (Pers G U) Bool
  unfolding show_all print_page
  cmd_per_update = do
    win ← gets (λ s. ui.win_getid (codes "peripherals") s.ui)
    on win (pure true)
        (λ win_id. do (ok, obuf) ← show_all; if ok then print_page win_id obuf else pure false)

  unfoldable pub cmd_per_cleanup : Pers G U → Pers G U
  unfolding clear
  cmd_per_cleanup s = record s {
    per_file = none;
    line_secs = clear s.line_secs;
    line_regs = clear s.line_regs;
    range_lst = [];
  }
