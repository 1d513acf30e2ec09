-- ===== src/Command/Memory/View.antt =====
-- The memory window: the registered segments, `cmd_memory_update`, and the sub-commands of
-- `cmd_memory_exec` of user_cmd/memory.cc. What USER logs is left out.
pub mod Lines
pub mod Live
pub mod Exec
use vimgdb.Base.{
  ℕ, zero, suc, ◌+◌, ◌*◌, Bool, true, false, not, ◌||◌, List, [], ◌∷◌, ◌++◌, Option, none, some,
  ◌==◌, ltb, if◌then◌else◌,
}
use vimgdb.Base.Maps.{insert, erase, nat_key, bytes_key}
use vimgdb.Base.Runs.{Run, pure, ◌>>=◌, ◌>>◌, gets, modify, on}
use vimgdb.Common.Text.{Bytes, codes, u32}
use vimgdb.Common.LineMap.{Entry, clear, find}
use vimgdb.Common.Page.{blank, mark}
use vimgdb.Gui.Interface.{Gui}
use vimgdb.Gdb.Events.{Handlers, inf_update}
use vimgdb.Command.Memory.{Memory, Formats, Dump, dump}
use vimgdb.Command.Memory.Hex.{Value, digits, unclosed, outside, set_value}

-- The sub-commands that the table of `subcmd.gperf` tells apart, as far as `Memory` knows them.
pub data MemoryCmd : Type 0 where
  add delete set fold complete view other : MemoryCmd

-- The members of the result of `data-read-memory-bytes` that are used.
pub record Chunk : Type 0 where
  pub begin : Bytes
  pub content : Bytes
  pub length : ℕ

-- gdb's answer to `data-read-memory-bytes` for an address and a number of bytes.
abbrev pub Reads : Type 0 → Type 0
Reads G = Bytes → ℕ → G → Option Chunk × G

-- What the code calls and is not its own: the lookup of a sub-command, `strtol`, `atoi`, the test by
-- `log2` for a power of two, what `win_print` makes of a text that is handed to it as a format,
-- whether a file can be opened, and whether gdb took `data-write-memory-bytes` for an address, a
-- value and a count.
pub record Calls (G : Type 0) : Type 0 where
  pub subcmd : Bytes → Option MemoryCmd
  pub strtol : Bytes → ℕ
  pub atoi : Bytes → ℕ
  pub is_pwr2 : ℕ → Bool
  pub format : Bytes → Bytes
  pub opens : Bytes → Bool
  pub read : Reads G
  pub write : Bytes → Bytes → ℕ → G → Bool × G

-- A segment with its pointer.
abbrev pub Segments : Type 0
Segments = List (ℕ × Memory)

-- The static variables of the file with gdb and the user interface; `fresh` is the next pointer.
pub record Memories (G U : Type 0) : Type 0 where
  pub mem_lst : Segments
  pub line_mems : List (Entry ℕ)
  pub asciib_len : ℕ
  pub fresh : ℕ
  pub gdb : G
  pub ui : U
  pub files : List (Bytes × Bytes)

-- `gdb_memory_t::update` with the answer.
unfoldable pub refresh : Chunk → Memory → Memory
refresh m mem = record mem { content_old = mem.content; content = m.content }

-- The loop of `cmd_memory_update`: the segments that were printed, the lines at which they stand,
-- and the text.
pub record Shown (G : Type 0) : Type 0 where
  pub printed : Segments
  pub line_mems : List (Entry ℕ)
  pub text : Dump
  pub gdb : G

module _ {G : Type 0} (read : Reads G) (fmt : Formats) where
  -- `list_for_each(mem_lst, mem)`; a segment that cannot be read ends it.
  unfoldable pub show : Segments → Shown G → Bool × Shown G
  show [] v = (true, v)
  show ((p, mem) ∷ lst) v =
      let (m, g) = read mem.begin mem.length v.gdb in
      elim m [
        | none ↦ (false, record v { gdb = g; printed = v.printed ++ (p, mem) ∷ lst })
        | some m ↦ show lst (record v {
          printed = v.printed ++ (p, refresh m mem) ∷ [];
          line_mems = mark v.text.page p v.line_mems;
          text = dump fmt (refresh m mem) v.text;
          gdb = g;
        })
      ]

-- `mem->expanded = mem->expanded ? false : true`
unfoldable pub toggle : ℕ → Segments → Segments
toggle p [] = []
toggle p ((q, mem) ∷ lst) =
    (if q == p then (q, record mem { expanded = not mem.expanded }) else (q, mem)) ∷ toggle p lst

-- `if(asciib_len < mem->alignment * 2 + 1)`, with an alignment among the arguments.
unfoldable pub enough : List Bytes → ℕ → ℕ → ℕ
enough [] alignment len = len
enough (arg ∷ args) alignment len =
    let needed = u32 (alignment * 2 + 1) in if ltb len needed then needed else len

module _ {G U : Type 0} (ui : Gui U) (calls : Calls G) (fmt : Formats)
    (h : Handlers (Memories G U)) where
  unfoldable pub call_ui : {A : Type 0} → Run U A → Run (Memories G U) A
  call_ui m s = elim (m s.ui) [ none ↦ none | some (a, u) ↦ some (a, record s { ui = u }) ]

  -- The window's text, and the lines of the segments.
  unfoldable pub shown : Memories G U → Bool × Shown G
  unfolding show clear blank
  shown s = show calls.read fmt s.mem_lst (record {
    printed = [];
    line_mems = clear s.line_mems;
    text = record { page = blank; ascii = []; asciib_len = s.asciib_len; fits = true };
    gdb = s.gdb;
  })

  unfoldable pub take_shown : Shown G → Memories G U → Memories G U
  take_shown v s = record s {
    mem_lst = v.printed;
    line_mems = v.line_mems;
    asciib_len = v.text.asciib_len;
    gdb = v.gdb;
  }

  unfoldable pub print_shown : ℕ → Dump → Run (Memories G U) Bool
  unfolding call_ui
  print_shown win_id text = do
    call_ui (ui.win_atomic (some win_id) true)
    call_ui (ui.win_clear (some win_id))
    call_ui (ui.win_print (some win_id) (calls.format text.page.obuf))
    call_ui (ui.win_atomic (some win_id) false)
    pure true

  unfoldable pub cmd_memory_update : Run (Memories G U) Bool
  unfolding shown take_shown print_shown
  cmd_memory_update = do
    win ← gets (λ s. ui.win_getid (codes "memory") s.ui)
    on win (pure true) (λ win_id. do
      (ok, v) ← gets shown
      modify (take_shown v)
      if ok then print_shown win_id v.text else pure false)

  -- A change of the segments, and the update behind it.
  unfoldable pub then_update : (Memories G U → Memories G U) → Run (Memories G U) Bool
  unfolding cmd_memory_update
  then_update f = do modify f; cmd_memory_update; pure false

  -- A new segment with what gdb read.
  unfoldable pub fresh_memory : Chunk → Memory
  fresh_memory m = record {
    begin = m.begin;
    content = m.content;
    content_old = [];
    length = m.length;
    alignment = 8;
    expanded = true;
  }

  -- `argv[4]`, if it is there.
  unfoldable pub align_memory : List Bytes → Memory → Memory
  align_memory [] mem = mem
  align_memory (arg ∷ args) mem =
      let alignment = u32 (calls.strtol arg) in
      record mem { alignment = if calls.is_pwr2 alignment then alignment else 8 }

  -- `list_add_tail(&mem_lst, mem)`, with the enlarged buffer.
  unfoldable pub register : List Bytes → Memory → Memories G U → Memories G U
  unfolding enough
  register args mem s = record s {
    mem_lst = s.mem_lst ++ (s.fresh, mem) ∷ [];
    fresh = s.fresh + 1;
    asciib_len = enough args mem.alignment s.asciib_len;
  }

  unfoldable pub memory_add : Bytes → Bytes → List Bytes → Run (Memories G U) Bool
  unfolding then_update fresh_memory align_memory register
  memory_add addr bytes args = do
    m ← gets (λ s. (calls.read addr (u32 (calls.strtol bytes)) s.gdb).0)
    modify (λ s. record s { gdb = (calls.read addr (u32 (calls.strtol bytes)) s.gdb).1 })
    on m (pure false) (λ m. then_update (register args (align_memory args (fresh_memory m))))

  -- What is done with the segment at a line.
  unfoldable pub at_line : Bytes → (ℕ → Memories G U → Memories G U) → Run (Memories G U) Bool
  unfolding then_update
  at_line line f = do
    mem ← gets (λ s. find s.line_mems (calls.atoi line))
    on mem (pure false) (λ p. then_update (f p))

  unfoldable pub memory_delete : Bytes → Run (Memories G U) Bool
  unfolding at_line
  memory_delete line = at_line line (λ p s. record s { mem_lst = erase p s.mem_lst })

  unfoldable pub memory_fold : Bytes → Run (Memories G U) Bool
  unfolding at_line toggle
  memory_fold line = at_line line (λ p s. record s { mem_lst = toggle p s.mem_lst })

  -- `gdb_memory_t::set` with the count, 0 if there is none, and the update if gdb took the value.
  unfoldable pub write_memory : Bytes → Value → ℕ → Run (Memories G U) Bool
  unfolding inf_update
  write_memory addr unclosed count = pure false
  write_memory addr outside count = λ s. none
  write_memory addr (digits value) count = do
    ok ← gets (λ s. (calls.write addr value count s.gdb).0)
    modify (λ s. record s { gdb = (calls.write addr value count s.gdb).1 })
    if ok then (inf_update h >> pure false) else pure false

  unfoldable pub count_of : List Bytes → ℕ
  count_of [] = 0
  count_of (arg ∷ args) = calls.atoi arg

  -- The lists for completion: their items end in a backslash and an n.
  unfoldable pub line_rows : List (Entry ℕ) → Bytes
  line_rows [] = []
  line_rows (e ∷ lst) = fmt.decimal e.line ++ codes "\\n" ++ line_rows lst

  unfoldable pub begin_rows : Segments → Bytes
  begin_rows [] = []
  begin_rows ((p, mem) ∷ lst) = mem.begin ++ codes "\\n" ++ begin_rows lst

  unfoldable pub memory_complete : Bytes → Run (Memories G U) Bool
  unfolding line_rows begin_rows
  memory_complete path = do
    modify (λ s. if not (calls.opens path) then s else record s {
      files = insert path (line_rows s.line_mems ++ codes "<addr>" ++ begin_rows s.mem_lst) s.files;
    })
    pure false

  -- The sub-commands, by the arguments behind them.
  unfoldable pub memory_subcmd : MemoryCmd → List Bytes → Run (Memories G U) Bool
  unfolding memory_add memory_delete memory_fold write_memory count_of memory_complete
      cmd_memory_update
  memory_subcmd add (addr ∷ bytes ∷ args) = memory_add addr bytes args
  memory_subcmd delete (line ∷ args) = memory_delete line
  memory_subcmd set (addr ∷ value ∷ args) = write_memory addr (set_value value) (count_of args)
  memory_subcmd fold (line ∷ args) = memory_fold line
  memory_subcmd complete (path ∷ args) = memory_complete path
  memory_subcmd view args = cmd_memory_update >> pure false
  memory_subcmd _ _ = pure false

  -- With the program's end.
  unfoldable pub cmd_memory_cleanup : Memories G U → Memories G U
  unfolding clear
  cmd_memory_cleanup s = record s { line_mems = clear s.line_mems; mem_lst = [] }

  unfoldable pub cmd_memory_exec : List Bytes → Run (Memories G U) Bool
  unfolding memory_subcmd
  cmd_memory_exec (name ∷ sub ∷ args) =
      on (calls.subcmd sub) (pure false) (λ c. memory_subcmd c args)
  cmd_memory_exec _ = pure false
