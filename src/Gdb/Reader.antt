-- ===== src/Gdb/Reader.antt =====
-- `gdbif::readline_thread` of gdb/gdb.cc: the bytes of gdb are cut into the texts that the parser is
-- handed. What it prints into the window of the log is left out.
pub mod Prompts
use vimgdb.Base.{
  ℕ, ◌+◌, ◌*◌, ◌-◌, Bool, List, [], ◌∷◌, ◌++◌, ◌&&◌, ◌||◌, ◌==◌, leb, if◌then◌else◌, length, drop,
}
use vimgdb.Base.Maps.{bytes_same}
use vimgdb.Common.Text.{Bytes, codes, u32}

-- `i >= n && strncmp(line + i - n, prompt, n) == 0`, with `n` the length of the prompt.
abbrev pub ends_in : Bytes → Bytes → Bool
ends_in prompt line =
    leb (length prompt) (length line) && bytes_same (drop (length line - length prompt) line) prompt

-- The end of a text of gdb.
unfoldable pub is_complete : Bytes → Bool
is_complete line =
    ends_in (codes "(gdb)" ++ 10 ∷ []) line
    || ends_in (codes "(gdb) " ++ 10 ∷ []) line
    || ends_in (codes "(y or n) ") line

-- The loop's variables: the first `i` bytes of `line`, the size of the buffer, and the texts that
-- were parsed.
pub record Reader : Type 0 where
  pub len : ℕ
  pub line : Bytes
  pub parsed : List Bytes

unfoldable pub begin : Reader
begin = record { len = 256; line = []; parsed = [] }

-- `if(i >= len){ len *= 2; … }`, with `realloc` that succeeds.
unfoldable pub enlarge : ℕ → ℕ → ℕ
enlarge i len = if leb len i then u32 (len * 2) else len

-- A byte behind the others.
unfoldable pub append : ℕ → Reader → Reader
append c r = record r { line = r.line ++ c ∷ []; len = enlarge (length r.line + 1) r.len }

-- `i = 0` behind the parser.
unfoldable pub flush : Reader → Reader
flush r = if is_complete r.line then record r { line = []; parsed = r.parsed ++ r.line ∷ [] } else r

-- A carriage return is dropped.
unfoldable pub read_byte : ℕ → Reader → Reader
read_byte c r = if c == 13 then r else flush (append c r)

-- The loop over all that gdb writes until its terminal is closed.
unfoldable pub read_all : Bytes → Reader → Reader
read_all [] r = r
read_all (c ∷ s) r = read_all s (read_byte c r)
