-- ===== src/Command/Per/Update.antt =====
-- `cmd_per_update` over all ranges.
use vimgdb.Base.{ℕ, ◌+◌, ◌*◌, ◌^◌, ◌<◌, ◌≤◌, ◌≡◌, Bool, true, some, All, length}
use vimgdb.Common.Text.{Bytes}
use vimgdb.Common.Page.Lines.{newlines, IsLine, IsNumbered, IsBelow}
use vimgdb.Gui.Interface.{Gui}
use vimgdb.Command.Memory.{Memory}
use vimgdb.Command.Memory.View.{Chunk, Reads}
use vimgdb.Command.Per.{Range}
use vimgdb.Command.Per.Check.{Ranges}
use vimgdb.Command.Per.Print.{Formats}
use vimgdb.Command.Per.Shown.{IsInline}
use vimgdb.Command.Per.Kept.{IsFitSection}
use vimgdb.Command.Per.View.{Pers, Sheet}

-- gdb answers each read with two characters for each byte, which stand on a line.
abbrev pub IsFull : {G : Type 0} → Reads G → Type 0
IsFull {G} read =
    (at : Bytes) (n : ℕ) (g : G)
    → (m : Chunk) × ((read at n g).0 ≡ some m) × (length m.content ≡ n * 2) × IsLine m.content

-- A range of less than 2^31 bytes with its memory, whose registers pass the checks with no offset
-- + nbytes of 2^32 or more, and whose fields start in the lower 32 bits; the names are parts of
-- lines.
pub record IsReady (r : Range) : Type 0 where
  pub mem : Memory
  pub holds : r.mem ≡ some mem
  pub long : r.size * 2 ≤ length mem.content
  pub sized : mem.length ≡ r.size
  pub big : r.size < 2 ^ 31
  pub sections : All (λ (p, sec). IsFitSection r.size sec) r.sections

-- The memory holds what gdb answered.
pub record IsCurrent {G : Type 0} (read : Reads G) (r : Range) : Type 0 where
  pub mem : Memory
  pub holds : r.mem ≡ some mem
  pub g : G
  pub chunk : Chunk
  pub answered : (read mem.begin mem.length g).0 ≡ some chunk
  pub same : mem.content ≡ chunk.content

abbrev pub ArePrinted : {G : Type 0} → Reads G → Ranges → Type 0
ArePrinted read = All (λ (p, r). IsReady r × IsCurrent read r)

-- The sections and the registers stand at lines that rise, and the newlines are counted.
pub record IsLined {G : Type 0} (v : Sheet G) : Type 0 where
  pub numbered : IsNumbered v.page
  pub secs : IsBelow v.line_secs v.page.line
  pub regs : IsBelow v.line_regs v.page.line

module _ {G : Type 0} (read : Reads G) (fmt : Formats) (f : IsInline fmt) (full : IsFull read)
    (end_little : Bool) where
  abbrev Done : Bool → Sheet G → Type 0
  Done ok v = (ok ≡ true) × ArePrinted read v.printed × IsLined v

-- Behind an update: it returned 0, and the text ends below the lines of the sections and the
-- registers.
abbrev pub Updated : {G U : Type 0} → Reads G → Bool × Bytes → Pers G U → Type 0
Updated read (ok, obuf) t =
    (ok ≡ true)
    × ArePrinted read t.range_lst
    × IsBelow t.line_secs (1 + newlines obuf)
    × IsBelow t.line_regs (1 + newlines obuf)
