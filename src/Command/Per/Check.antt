-- ===== src/Command/Per/Check.antt =====
-- What `cmd_per_exec` of user_cmd/per.cc checks when it loads a file of peripheral registers.
use vimgdb.Base.{ℕ, true, List, [], ◌∷◌, Option, none, some, ◌==◌, if◌then◌else◌}
use vimgdb.Base.Runs.{Run, pure, ◌>>=◌, ◌>>◌, gets, modify, on}
use vimgdb.Common.Escape.{strdeescape}
use vimgdb.Command.Memory.{Memory}
use vimgdb.Command.Memory.View.{Chunk}
use vimgdb.Command.Per.{Register, Section, Range, defined, register_fits}

abbrev pub Ranges : Type 0
Ranges = List (ℕ × Range)

-- gdb's answer to `data-read-memory-bytes` for an address and a number of bytes.
abbrev pub Acquires : Type 0 → Type 0
Acquires G = ℕ → ℕ → G → Option Chunk × G

-- The new object of `gdb_memory_t::acquire`.
unfoldable pub acquired : Chunk → Memory
acquired m = record {
  begin = m.begin;
  content = m.content;
  content_old = [];
  length = m.length;
  alignment = 8;
  expanded = true;
}

-- One more element, if the others were taken.
abbrev pub also : {A : Type 0} → A → Option (List A) → Option (List A)
also a none = none
also a (some l) = some (a ∷ l)

-- The checks of a register, which link it with its range.
unfoldable pub checked : (parent size : ℕ) → Register → Option Register
checked parent size reg =
    if register_fits size reg
    then some (if reg.nbytes == 0 then reg else record reg { parent = some parent })
    else none

unfoldable pub check_registers :
    {G : Type 0} → (parent size : ℕ) → List (ℕ × Register) → Run G (Option (List (ℕ × Register)))
unfolding defined checked
check_registers p size [] = pure (some [])
check_registers p size ((q, reg) ∷ regs) = do
  name ← defined (strdeescape reg.name)
  on (checked p size (record reg { name = name })) (pure none)
      (λ reg. do rest ← check_registers p size regs; pure (also (q, reg) rest))

unfoldable pub check_sections :
    {G : Type 0} → (parent size : ℕ) → List (ℕ × Section) → Run G (Option (List (ℕ × Section)))
unfolding check_registers
check_sections p size [] = pure (some [])
check_sections p size ((q, sec) ∷ secs) = do
  regs ← check_registers p size sec.regs
  on regs (pure none) (λ regs. do
    rest ← check_sections p size secs
    pure (also (q, record sec { regs = regs }) rest))

module _ {G : Type 0} (acquire : Acquires G) where
  -- A range whose memory was read.
  unfoldable pub check_range : ℕ → Range → Chunk → Run G (Option Range)
  unfolding check_sections acquired
  check_range p r m = do
    secs ← check_sections p r.size r.sections
    on secs (pure none)
        (λ secs. pure (some (record r { sections = secs; mem = some (acquired m) })))

  -- The initialisation of the ranges; `none` for an error.
  unfoldable pub check_ranges : Ranges → Run G (Option Ranges)
  unfolding check_range
  check_ranges [] = pure (some [])
  check_ranges ((p, r) ∷ ranges) = do
    m ← gets (λ g. (acquire r.base r.size g).0)
    modify (λ g. (acquire r.base r.size g).1)
    on m (pure none) (λ m. do
      r ← check_range p r m
      on r (pure none) (λ r. do rest ← check_ranges ranges; pure (also (p, r) rest)))
