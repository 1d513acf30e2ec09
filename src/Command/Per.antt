-- ===== src/Command/Per.antt =====
-- Peripheral registers: the classes of user_cmd/pertypes.cc, as the actions of user_cmd/per.y build
-- them.
pub mod Print
pub mod Fields
pub mod Swapped
pub mod Shown
pub mod Kept
pub mod Sections
pub mod Check
pub mod View
pub mod Exec
pub mod Update
pub mod Checked
use vimgdb.Base.{
  ℕ, zero, suc, ◌+◌, ◌*◌, ◌/◌, ◌%◌, ◌^◌, Bool, true, false, not, ◌&&◌, ◌||◌, List, [], ◌∷◌, ◌++◌,
  Option, none, some, ◌==◌, ltb, leb, if◌then◌else◌, length, take, drop,
}
use vimgdb.Base.Bits.{bit_and, bit_or}
use vimgdb.Base.Maps.{bytes_same}
use vimgdb.Base.Runs.{Run, pure, ◌>>=◌, ◌>>◌, gets, modify, crash}
use vimgdb.Common.Text.{Bytes, codes, u32}
use vimgdb.Common.Swap.{strswap2}
use vimgdb.Common.LineMap.{Entry}
use vimgdb.Common.Page.{Page, put, advance, put_line, mark, tag_on, tag_off}
use vimgdb.Command.Memory.{Memory}

-- `per_bits_t`, less its links.
pub record Bits : Type 0 where
  pub name : Bytes
  pub idx : ℕ
  pub nbits : ℕ
  pub mask : ℕ
  pub value : ℕ

-- The flags of `per_reg_opt_t`.
pub record RegOpt : Type 0 where
  pub big : Bool
  pub little : Bool

-- `per_register_t`: a null text stands as an empty one, which each use treats alike; `parent` is the
-- pointer of a range.
pub record Register : Type 0 where
  pub name : Bytes
  pub desc : Bytes
  pub offset : ℕ
  pub nbytes : ℕ
  pub opt : RegOpt
  pub bits : List Bits
  pub parent : Option ℕ

-- `per_section_t`; each register comes with its pointer.
pub record Section : Type 0 where
  pub name : Bytes
  pub expanded : Bool
  pub regs : List (ℕ × Register)

-- `per_range_t`
pub record Range : Type 0 where
  pub base : ℕ
  pub size : ℕ
  pub sections : List (ℕ × Section)
  pub mem : Option Memory

-- What the grammar of per.y hands to the constructors.
pub record BitsItem : Type 0 where
  pub name : Bytes
  pub idx : ℕ
  pub nbits : ℕ

pub data RegItem : Type 0 where
  register : (name desc : Bytes) (offset nbytes : ℕ) (opt : RegOpt) (bits : List BitsItem) → RegItem
  emptyline : RegItem
  headline : (name : Bytes) → RegItem

pub record SectionItem : Type 0 where
  pub name : Bytes
  pub regs : List RegItem

pub record RangeItem : Type 0 where
  pub base : ℕ
  pub size : ℕ
  pub sections : List SectionItem

-- `for(i=0; i<nbits; i++) this->mask |= 0x1 << i;` with the rounds that are left; a shift by 32 bits
-- or more is undefined.
unfoldable pub mask_loop : (rounds i mask : ℕ) → Option ℕ
mask_loop zero i mask = some mask
mask_loop (suc n) i mask = elim (ltb i 32) [
  | true ↦ mask_loop n (i + 1) (bit_or 32 mask (2 ^ i))
  | false ↦ none
]

unfoldable pub with_mask : BitsItem → Option ℕ → Option Bits
with_mask b none = none
with_mask b (some mask) =
    some (record { name = b.name; idx = u32 b.idx; nbits = u32 b.nbits; mask = mask; value = 0 })

unfoldable pub new_bits : BitsItem → Option Bits
unfolding mask_loop with_mask
new_bits b = with_mask b (mask_loop (u32 b.nbits) 0 0)

-- A result that may be undefined.
unfoldable pub defined : {S A : Type 0} → Option A → Run S A
defined none = crash
defined (some a) = pure a

-- A new object's pointer.
unfoldable pub allocate : Run ℕ ℕ
allocate = do p ← gets (λ p. p); modify (λ p. p + 1); pure p

unfoldable pub build_bits : List BitsItem → Run ℕ (List Bits)
unfolding defined
build_bits [] = pure []
build_bits (b ∷ bits) = do b ← defined (new_bits b); bits ← build_bits bits; pure (b ∷ bits)

-- Its own text, and no bytes.
unfoldable pub line_register : Bytes → Register
line_register name = record {
  name = name;
  desc = [];
  offset = 0;
  nbytes = 0;
  opt = record { big = false; little = false };
  bits = [];
  parent = none;
}

unfoldable pub build_register : RegItem → Run ℕ Register
unfolding build_bits line_register
build_register (register name desc offset nbytes opt bits) = do
  bits ← build_bits bits
  pure (record {
    name = name;
    desc = desc;
    offset = u32 offset;
    nbytes = u32 nbytes;
    opt = opt;
    bits = bits;
    parent = none;
  })
build_register emptyline = pure (line_register [])
build_register (headline name) = pure (line_register name)

unfoldable pub build_registers : List RegItem → Run ℕ (List (ℕ × Register))
unfolding build_register allocate
build_registers [] = pure []
build_registers (r ∷ regs) = do
  reg ← build_register r
  p ← allocate
  regs ← build_registers regs
  pure ((p, reg) ∷ regs)

unfoldable pub build_sections : List SectionItem → Run ℕ (List (ℕ × Section))
unfolding build_registers allocate
build_sections [] = pure []
build_sections (s ∷ secs) = do
  regs ← build_registers s.regs
  p ← allocate
  secs ← build_sections secs
  pure ((p, record { name = s.name; expanded = false; regs = regs }) ∷ secs)

unfoldable pub build_ranges : List RangeItem → Run ℕ (List (ℕ × Range))
unfolding build_sections allocate
build_ranges [] = pure []
build_ranges (r ∷ ranges) = do
  secs ← build_sections r.sections
  p ← allocate
  ranges ← build_ranges ranges
  pure (
      (p, record { base = r.base % 2 ^ 64; size = u32 r.size; sections = secs; mem = none })
      ∷ ranges)

-- `bits->idx + bits->nbits > reg->nbytes * 8` fails for each field.
unfoldable pub fields_fit : ℕ → List Bits → Bool
fields_fit nbytes [] = true
fields_fit nbytes (b ∷ bits) =
    leb (u32 (b.idx + b.nbits)) (u32 (nbytes * 8)) && fields_fit nbytes bits

-- The checks of `cmd_per_exec` for a register in a range of `size` bytes; a headline passes.
unfoldable pub register_fits : ℕ → Register → Bool
unfolding fields_fit
register_fits size reg =
    reg.nbytes == 0 || leb (u32 (reg.offset + reg.nbytes)) size && fields_fit reg.nbytes reg.bits
