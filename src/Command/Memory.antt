-- ===== src/Command/Memory.antt =====
-- The dump of a memory segment: the loops of `cmd_memory_update` of user_cmd/memory.cc over a
-- segment, and the update of its bytes by gdb/memory.cc. Addresses lie below 2^63,
-- alignments are powers of two, and a content holds two digits for each byte, as gdb answers: behind
-- its end, where the code reads outside of the buffer, a read gives 0.
pub mod Hex
pub mod Paged
pub mod Roomy
pub mod View
use vimgdb.Base.{
  ℕ, zero, suc, ◌+◌, ◌*◌, ◌-◌, ◌/◌, ◌%◌, ◌^◌, Bool, true, false, not, ◌&&◌, List, [], ◌∷◌, ◌++◌,
  Option, none, some, ◌==◌, ltb, leb, if◌then◌else◌, length, take, drop,
}
use vimgdb.Base.Maps.{bytes_same}
use vimgdb.Common.Text.{Bytes, codes, char_at, u32}
use vimgdb.Common.Escape.{strescape}
use vimgdb.Common.LineMap.{Entry}
use vimgdb.Common.Page.{tag_on, tag_off, Page, put, advance, put_line, repeat, mark}

-- `gdb_memory_t`, less its links.
pub record Memory : Type 0 where
  pub begin : Bytes
  pub content : Bytes
  pub content_old : Bytes
  pub length : ℕ
  pub alignment : ℕ
  pub expanded : Bool

-- What `printf` makes of a number by `%#0*lx`, `%u` and `%2x`, and `strtoll(…, 0, 16)`.
pub record Formats : Type 0 where
  pub address : ℕ → Bytes
  pub decimal : ℕ → Bytes
  pub column : ℕ → Bytes
  pub strtoll : Bytes → ℕ

-- `ALIGN(val, base)` for a power of two, where the mask cuts off the remainder.
abbrev pub align : ℕ → ℕ → ℕ
align val base = (val / base) * base

-- A `char` as an `int`, modulo 2^32.
abbrev pub schar : ℕ → ℕ
schar c = if ltb c 128 then c else c + 2 ^ 32 - 256

-- `CTOI(c)`
abbrev pub ctoi : ℕ → ℕ
ctoi c = u32 (schar c + 2 ^ 32 - (if leb 97 c && ltb c 128 then 87 else 48))

-- `(char)(CTOI(s[0]) * 16 + CTOI(s[1]))`
unfoldable pub byte_of : Bytes → ℕ
byte_of s = (ctoi (char_at s 0) * 16 + ctoi (char_at s 1)) % 256

-- The two characters at `s + i * 2`.
abbrev pub pair_at : ℕ → Bytes → Bytes
pair_at i s = take 2 (drop (i * 2) s)

-- The loop's variables: the text, the first `j` bytes of `asciib`, and the size of `asciib`. A
-- write behind `asciib` clears `fits`.
pub record Dump : Type 0 where
  pub page : Page
  pub ascii : Bytes
  pub asciib_len : ℕ
  pub fits : Bool

unfoldable pub on_page : (Page → Page) → Dump → Dump
on_page f d = record d { page = f d.page }

-- `asciib[j++] = c`
unfoldable pub push : ℕ → Dump → Dump
push c d = record d {
  ascii = d.ascii ++ c ∷ [];
  fits = d.fits && ltb (length d.ascii) d.asciib_len;
}

-- `obuf.add("??"); asciib[j++] = ' ';`
unfoldable pub fill : Dump → Dump
unfolding on_page push
fill d = push 32 (on_page (put (codes "??")) d)

-- `asciib[j] = 0;`, and the line's end with the escaped text.
unfoldable pub end_line : Dump → Dump
unfolding put_line
end_line d =
    let esc = strescape d.ascii d.asciib_len in
    record d {
      page =
          put_line
            (codes "    " ++ tag_on (codes "h2") ++ esc.text ++ tag_off (codes "h2") ++ 10 ∷ [])
            d.page;
      asciib_len = esc.max;
      fits = d.fits && ltb (length d.ascii) d.asciib_len;
    }

-- `j = 0`
unfoldable pub restart : Dump → Dump
restart d = record d { ascii = [] }

-- The last line, and an empty one behind a line that holds bytes.
unfoldable pub last : Dump → Dump
unfolding end_line on_page put_line
last d = if length d.ascii == 0 then end_line d else on_page (put_line (10 ∷ [])) (end_line d)

module _ (fmt : Formats) where
  unfoldable pub put_address : ℕ → Dump → Dump
  unfolding on_page
  put_address addr =
      on_page (
        put
          (b' ' ∷ tag_on (codes "h1") ++ fmt.address addr ++ tag_off (codes "h1") ++ codes "    "))

  -- The numbers of the columns from `i` on.
  unfoldable pub columns : ℕ → ℕ → Bytes
  columns zero i = []
  columns (suc n) i = fmt.column i ++ columns n (i + 1)

  -- The head of a segment.
  unfoldable pub header : Memory → Bytes
  header mem =
      b'[' ∷ (if mem.expanded then b'-' else b'+') ∷ codes "] "
      ++ tag_on (codes "h0memory dump: ")
      ++ fmt.address (fmt.strtoll mem.begin)
      ++ tag_off (codes "h0 (")
      ++ fmt.decimal mem.length
      ++ codes " bytes)"
      ++ 10 ∷ []

  unfoldable pub column_line : Memory → Bytes
  unfolding columns
  column_line mem =
      codes "                       "
      ++ tag_on (codes "h1")
      ++ columns mem.alignment 0
      ++ tag_off (codes "h1")
      ++ 10 ∷ []

  -- A byte, in a colour if it was modified.
  unfoldable pub byte_text : Memory → ℕ → Bytes
  byte_text mem i =
      let modified = not (bytes_same (pair_at i mem.content) (pair_at i mem.content_old)) in
      (if modified then tag_on (codes "c") else [])
      ++ pair_at i mem.content
      ++ (if modified then tag_off (codes "c") else [])

  -- `c == '\0' ? ' ' : c`
  unfoldable pub shown : ℕ → ℕ
  shown c = if c == 0 then 32 else c

  -- Behind a byte at the end of a line.
  unfoldable pub wrap : Memory → (i addr : ℕ) → Dump → Dump
  unfolding end_line restart put_address
  wrap mem i addr d =
      if addr + 1 == align (addr + mem.alignment) mem.alignment
      then (let ended = restart (end_line d) in
          if ltb (i + 1) mem.length then put_address (addr + 1) ended else ended)
      else d

  -- A round of the loop over the content.
  unfoldable pub put_byte : Memory → (i addr : ℕ) → Dump → Dump
  unfolding on_page push wrap byte_text shown
  put_byte mem i addr d =
      wrap mem i addr
        (push (shown (byte_of (pair_at i mem.content))) (on_page (put (byte_text mem i)) d))

  -- `for(; i<mem->length; i++, addr++)`, with the rounds that are left.
  unfoldable pub put_content : Memory → (rounds i addr : ℕ) → Dump → Dump
  unfolding put_byte
  put_content mem zero i addr d = d
  put_content mem (suc rounds) i addr d =
      put_content mem rounds (i + 1) (addr + 1) (put_byte mem i addr d)

  -- The bytes in front of the segment.
  unfoldable pub lead : Memory → Dump → Dump
  unfolding put_address fill repeat restart
  lead mem d =
      let addr = fmt.strtoll mem.begin in
      let displ = align addr mem.alignment in
      repeat (addr - displ) fill (put_address displ (restart d))

  -- The bytes behind the segment.
  unfoldable pub trail : Memory → Dump → Dump
  unfolding fill repeat
  trail mem d =
      let addr = fmt.strtoll mem.begin + mem.length in
      if align addr mem.alignment == addr
      then d
      else repeat (align (addr + mem.alignment) mem.alignment - addr) fill d

  -- The lines of a segment.
  unfoldable pub dump : Memory → Dump → Dump
  unfolding on_page put_line header column_line lead put_content trail last
  dump mem d =
      if not mem.expanded
      then on_page (λ p. put_line (10 ∷ []) (put_line (header mem) p)) d
      else last (
          trail mem (
            put_content mem mem.length 0 (fmt.strtoll mem.begin)
              (lead mem (on_page (λ p. put_line (column_line mem) (put_line (header mem) p)) d))))
