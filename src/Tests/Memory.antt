-- ===== src/Tests/Memory.antt =====
-- Runs of `Memory` with a gdb that answers every read.
use vimgdb.Base.{
  ℕ, ◌+◌, ◌-◌, ◌%◌, ◌<◌, ◌≡◌, ◌≢◌, refl, subst, true, false, [], ◌∷◌, ◌++◌, Option, none, some,
  if◌then◌else◌, ◌==◌, arith, All, length,
}
use mathlib.Core.Option.{some-injective}
use vimgdb.Base.Runs.{Then, pure, ◌>>=◌, gets, modify, on}
use vimgdb.Common.Text.{Bytes, codes, char_at}
use vimgdb.Common.LineMap.{find}
use vimgdb.Common.Page.{blank}
use vimgdb.Gui.Interface.{Gui}
use vimgdb.Gdb.Events.{Handlers}
use vimgdb.Command.Memory.{Memory, Formats, byte_of, pair_at, dump}
use vimgdb.Command.Memory.Hex.{digits, ctohexstr, hex, set_value, set_value-shown}
use vimgdb.Command.Memory.Paged.{IsInline}
use vimgdb.Command.Memory.View.{
  add, delete, other, Memories, Calls, Chunk, shown, cmd_memory_exec, register, align_memory,
  fresh_memory,
}
use vimgdb.Command.Memory.View.Lines.{IsWide, IsPlain, IsShown, shown-IsShown, register-IsWide}
use vimgdb.Command.Memory.View.Exec.{cmd_memory_exec-Holds}
use vimgdb.Command.Memory.View.Live.{Holds}

quoted : set_value (codes "\"aZ\"") ≡ digits (codes "615a")
unfolding set_value
quoted = refl

set_value-shown_example :
    (set_value (b'"' ∷ codes "aZ" ++ b'"' ∷ []) ≡ digits (hex (codes "aZ")))
    × (byte_of (pair_at 1 (hex (codes "aZ"))) ≡ char_at (codes "aZ") 1)
set_value-shown_example =
    set_value-shown (codes "aZ") 1 (omega arith, (omega arith, tt)) (omega arith)

-- A character above 127 is no hexadecimal digits.
signed_char : ctohexstr 233 ≡ codes "/)"
unfolding ctohexstr
signed_char = refl

abbrev formats : Formats
formats = record {
  address = λ n. codes "0x";
  decimal = λ n. (48 + n % 10) ∷ [];
  column = λ n. b' ' ∷ (48 + n % 10) ∷ [];
  strtoll = λ s. length s;
}

digit_line : (n : ℕ) → (48 + n % 10) ≢ 10
digit_line n e = absurd (omega arith)

formats-IsInline : IsInline formats
formats-IsInline = record {
  address = λ n. ((λ e. cc), ((λ e. cc), tt));
  decimal = λ n. (digit_line n, tt);
  column = λ n. ((λ e. cc), (digit_line n, tt));
}

abbrev chunk : Chunk
chunk = record { begin = codes "8"; content = codes "410a2500"; length = 4 }

abbrev calls : Calls ℕ
calls = record {
  subcmd = λ s.
      if char_at s 0 == b'd'
      then some delete
      else if char_at s 0 == b'a'
      then some add
      else some other;
  strtol = λ s. char_at s 0 - 48;
  atoi = λ s. char_at s 0 - 48;
  is_pwr2 = λ n. n == 4;
  format = λ t. t;
  opens = λ t. true;
  read = λ at n g. (some chunk, g + 1);
  write = λ at v n g. (true, g);
}

calls-IsPlain : IsPlain calls.read
calls-IsPlain at n g m e =
    subst (λ (c : Chunk). All (λ b. b ≢ 10) c.content) (some-injective chunk m e)
      (
        (λ e. cc),
        (
          (λ e. cc),
          ((λ e. cc), ((λ e. cc), ((λ e. cc), ((λ e. cc), ((λ e. cc), ((λ e. cc), tt)))))),
        ),
      )

-- Windows of which one, or none, is there.
abbrev screen : Option ℕ → Gui Bytes
screen win = record {
  win_getid = λ name u. win;
  win_create = λ name u. some (win, u);
  win_atomic = λ win en u. some (true, u);
  win_clear = λ win u. some (tt, []);
  win_print = λ win t u. some (tt, t);
  win_anno_add = λ win l s f b u. some (true, u);
  win_anno_delete = λ win l s u. some (true, u);
  win_cursor_set = λ win l c u. some (true, u);
}

abbrev handlers : Handlers (Memories ℕ Bytes)
handlers = record {
  get_changed = λ s. some (true, s);
  stop_hdlr_lst = [];
  exit_hdlr_lst = [];
  file_exists = λ name. true;
}

abbrev segment : Memory
segment = record {
  begin = codes "8";
  content = codes "420a2500";
  content_old = [];
  length = 4;
  alignment = 4;
  expanded = true;
}

abbrev session : Memories ℕ Bytes
session = record {
  mem_lst = (7, segment) ∷ (9, record segment { expanded = false }) ∷ [];
  line_mems = record { line = 1; item = 7 } ∷ record { line = 6; item = 9 } ∷ [];
  asciib_len = 17;
  fresh = 10;
  gdb = 0;
  ui = [];
  files = [];
}

-- A segment at address 1 with four columns: two heads, two lines and an empty one.
segment_lines :
    (dump formats segment
      (record { page = blank; ascii = []; asciib_len = 17; fits = true })).page.line
    ≡ 6
unfolding dump blank
segment_lines = refl

session-IsWide : IsWide session.asciib_len session.mem_lst
session-IsWide = ((omega arith, omega arith), ((omega arith, omega arith), tt))

all_read : (shown (screen (some 2)) calls formats handlers session).0 ≡ true
unfolding shown
all_read = refl

shown-IsShown_example :
    IsShown 17 (7 ∷ 9 ∷ []) (shown (screen (some 2)) calls formats handlers session).1
shown-IsShown_example =
    shown-IsShown (screen (some 2)) calls formats handlers session formats-IsInline calls-IsPlain
      session-IsWide all_read

one_pwr2 : (n : ℕ) → calls.is_pwr2 n ≡ true → 0 < n
one_pwr2 n e = ground arith

register-IsWide_example :
    let t : Memories ℕ Bytes =
      register
        (screen none)
        calls
        formats
        handlers
        (codes "4" ∷ [])
        (align_memory
          (screen none)
          calls
          formats
          handlers
          (codes "4" ∷ [])
          (fresh_memory (screen none) calls formats handlers chunk))
        session in
    IsWide t.asciib_len t.mem_lst
register-IsWide_example =
    register-IsWide (screen none) calls formats handlers (codes "4" ∷ []) chunk session one_pwr2
      (omega arith, tt) (omega arith) session-IsWide

session-Holds : Holds (screen (some 2)) calls formats handlers session
session-Holds = record { live = (refl, (refl, tt)) }

cmd_memory_exec-Holds_example : Then (Holds (screen (some 2)) calls formats handlers) (
    cmd_memory_exec
      (screen (some 2))
      calls
      formats
      handlers
      (codes "Memory" ∷ codes "delete" ∷ codes "3" ∷ [])
      session)
cmd_memory_exec-Holds_example =
    cmd_memory_exec-Holds (screen (some 2)) calls formats handlers
      (codes "Memory" ∷ codes "delete" ∷ codes "3" ∷ []) 2 session (λ s k. k) tt refl session-Holds

-- With the window closed, the line of a deleted segment stays behind.
stale_line :
    cmd_memory_exec
      (screen none)
      calls
      formats
      handlers
      (codes "Memory" ∷ codes "delete" ∷ codes "3" ∷ [])
      session
    ≡ some (false, record session { mem_lst = (9, record segment { expanded = false }) ∷ [] })
unfolding cmd_memory_exec on ◌>>=◌ gets find modify pure
stale_line = refl
