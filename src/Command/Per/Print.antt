-- ===== src/Command/Per/Print.antt =====
-- The loops of `cmd_per_update` of user_cmd/per.cc over a range. A memory holds less than 2^31
-- bytes.
use vimgdb.Base.{
  ℕ, ◌+◌, ◌*◌, ◌/◌, ◌%◌, ◌^◌, Bool, true, false, not, ◌&&◌, ◌||◌, List, [], ◌∷◌, ◌++◌, Option, none,
  some, ◌==◌, ltb, leb, if◌then◌else◌, length, take, drop,
}
use vimgdb.Base.Bits.{bit_and}
use vimgdb.Base.Maps.{bytes_same}
use vimgdb.Base.Runs.{Run, pure, ◌>>=◌, ◌>>◌, gets, modify}
use vimgdb.Common.Text.{Bytes, codes, u32}
use vimgdb.Common.Swap.{strswap2}
use vimgdb.Common.LineMap.{Entry}
use vimgdb.Common.Page.{Page, put, advance, put_line, mark, tag_on, tag_off}
use vimgdb.Command.Per.{Bits, RegOpt, Register, Section, defined}

-- `strtoll(…, 0, 16)` as an `unsigned long int`, and what `printf` makes of a number by `%.*lx` with
-- a precision and by `%d`.
pub record Formats : Type 0 where
  pub strtoll : Bytes → ℕ
  pub hex : ℕ → ℕ → Bytes
  pub decimal : ℕ → Bytes

-- `BYTE_SWAP_COND(reg_opt, glob_prop)`, with the global property as whether it is `END_LITTLE`.
unfoldable pub byte_swap_cond : RegOpt → Bool → Bool
byte_swap_cond opt end_little = opt.little || end_little && not opt.big

-- `(reg_val & (bits->mask << bits->idx)) >> bits->idx`: the mask is shifted as 32 bits.
unfoldable pub bit_val : ℕ → Bits → Option ℕ
bit_val reg_val b =
    if ltb b.idx 32 then some (bit_and 64 reg_val (u32 (b.mask * 2 ^ b.idx)) / 2 ^ b.idx) else none

-- A text in a colour if it was modified.
unfoldable pub coloured : Bool → Bytes → Bytes
coloured true t = tag_on (codes "c") ++ t ++ tag_off (codes "c")
coloured false t = t

-- The name with the description behind it.
unfoldable pub titled : Bytes → Bytes → Bytes
titled name [] = name
titled name (c ∷ desc) = name ++ codes " - " ++ c ∷ desc

-- `if(i && i % 4 == 0)`
unfoldable pub wrap_row : ℕ → Page → Page
unfolding put_line
wrap_row i p = if not (i == 0) && (i % 4 == 0) then put_line (10 ∷ []) p else p

-- The window while it is printed; `content` is that of the range's memory.
pub record Screen : Type 0 where
  pub page : Page
  pub line_secs : List (Entry ℕ)
  pub line_regs : List (Entry ℕ)
  pub content : Bytes

unfoldable pub to_page : (Page → Page) → Run Screen (Unit {0})
to_page f = modify (λ s. record s { page = f s.page })

abbrev pub slice : (at n : ℕ) → Bytes → Bytes
slice at n s = take n (drop at s)

-- What is copied back, between what stands before and behind.
unfoldable pub splice : Bytes → Bytes → Option Bytes → Option Bytes
splice before behind none = none
splice before behind (some t) = some (before ++ t ++ behind)

-- `strswap2(s + at, n)` inside of the text.
unfoldable pub swap_at : (at n : ℕ) → Bytes → Option Bytes
unfolding splice
swap_at at n s = splice (take at s) (drop (at + n) s) (strswap2 (slice at n s))

unfoldable pub swap_content : Bool → (at n : ℕ) → Run Screen (Unit {0})
unfolding defined
swap_content false at n = pure tt
swap_content true at n = do
  s ← gets (λ s. s.content)
  t ← defined (swap_at at n s)
  modify (λ s. record s { content = t })

-- No read outside of the two contents.
abbrev pub is_inside : (at n : ℕ) → Bytes → Bytes → Bool
is_inside at n s old = leb (at + n) (length s) && leb (at + n) (length old)

module _ (fmt : Formats) where
  unfoldable pub field_text : Bits → ℕ → Bytes
  unfolding coloured
  field_text b x =
      codes "   "
      ++ tag_on (codes "h3")
      ++ b.name
      ++ tag_off (codes "h3 ")
      ++ coloured (not (x == b.value)) (fmt.hex (u32 (b.nbits + 3) / 4) x)

  -- `list_for_each(reg->bits, bits)`
  unfoldable pub put_bits : (reg_val i : ℕ) → List Bits → Run Screen (List Bits)
  unfolding defined to_page
  put_bits v i [] = pure []
  put_bits v i (b ∷ bits) = do
    to_page (wrap_row i)
    x ← defined (bit_val v b)
    to_page (put (field_text b x))
    bits ← put_bits v (i + 1) bits
    pure (record b { value = x } ∷ bits)

  -- `if(reg->bits)`
  unfoldable pub put_fields : (at n : ℕ) → List Bits → Run Screen (List Bits)
  unfolding put_bits to_page
  put_fields at n [] = pure []
  put_fields at n (b ∷ bits) = do
    s ← gets (λ s. s.content)
    bits ← put_bits (fmt.strtoll (slice at n s)) 0 (b ∷ bits)
    to_page (λ p. advance 2 (put (10 ∷ 10 ∷ []) p))
    pure bits

  unfoldable pub headline_text : Register → Bytes
  unfolding titled
  headline_text reg =
      b' ' ∷ tag_on (codes "h1") ++ titled reg.name reg.desc ++ tag_off (codes "h1") ++ 10 ∷ []

  unfoldable pub register_text : Register → Bool → Bytes → Bytes
  unfolding titled coloured
  register_text reg modified value =
      codes "  "
      ++ tag_on (codes "h2")
      ++ titled reg.name reg.desc
      ++ tag_off (codes "h2 = ")
      ++ coloured modified value
      ++ 10 ∷ []

  -- A register of at least one byte, whose digits are the `n` ones from `at` on.
  unfoldable pub put_value : Bool → Bytes → Register → (at n : ℕ) → Run Screen Register
  unfolding swap_content to_page put_fields
  put_value swap old reg at n = do
    s ← gets (λ s. s.content)
    swap_content swap at n
    t ← gets (λ s. s.content)
    to_page (
        put_line
          (register_text reg (not (bytes_same (slice at n s) (slice at n old))) (slice at n t)))
    bits ← put_fields at n reg.bits
    swap_content swap at n
    pure (record reg { bits = bits })

  unfoldable pub put_inside : Bool → Bytes → Register → (at n : ℕ) → Run Screen Register
  unfolding put_value
  put_inside swap old reg at n s =
      if is_inside at n s.content old then put_value swap old reg at n s else none

  unfoldable pub put_headline : Register → Run Screen Register
  unfolding to_page
  put_headline reg = do to_page (put_line (headline_text reg)); pure reg

  unfoldable pub put_register : Bool → Bytes → Register → Run Screen Register
  unfolding put_inside put_headline
  put_register end_little old reg =
      if reg.nbytes == 0
      then put_headline reg
      else put_inside (byte_swap_cond reg.opt end_little) old reg (u32 (reg.offset * 2))
          (u32 (reg.nbytes * 2))

  -- `list_for_each(sec->regs, reg)`
  unfoldable pub put_registers :
      Bool → Bytes → List (ℕ × Register) → Run Screen (List (ℕ × Register))
  unfolding put_register
  put_registers end_little old [] = pure []
  put_registers end_little old ((p, reg) ∷ regs) = do
    modify (λ s. record s { line_regs = mark s.page p s.line_regs })
    reg ← put_register end_little old reg
    regs ← put_registers end_little old regs
    pure ((p, reg) ∷ regs)

  unfoldable pub section_text : Section → Bytes
  section_text sec =
      b'[' ∷ (if sec.expanded then b'-' else b'+') ∷ codes "] "
      ++ tag_on (codes "h0")
      ++ sec.name
      ++ tag_off (codes "h0")
      ++ 10 ∷ []

  -- Behind the header; the empty line ends each section.
  unfoldable pub put_body : Bool → Bytes → Section → Run Screen Section
  unfolding to_page put_registers
  put_body end_little old sec = do
    regs ← if sec.expanded then put_registers end_little old sec.regs else pure sec.regs
    to_page (put_line (10 ∷ []))
    pure (record sec { regs = regs })

  unfoldable pub put_section : Bool → Bytes → ℕ → Section → Run Screen Section
  unfolding section_text to_page put_body
  put_section end_little old p sec = do
    modify (λ s. record s { line_secs = mark s.page p s.line_secs })
    to_page (put_line (section_text sec))
    put_body end_little old sec

  unfoldable pub put_sections : Bool → Bytes → List (ℕ × Section) → Run Screen (List (ℕ × Section))
  unfolding put_section
  put_sections end_little old [] = pure []
  put_sections end_little old ((p, sec) ∷ secs) = do
    sec ← put_section end_little old p sec
    secs ← put_sections end_little old secs
    pure ((p, sec) ∷ secs)
